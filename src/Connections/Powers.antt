-- ===== src/Connections/Powers.antt =====
-- What a setting of a player comes to, with a player and without one.
use xpilot_fxi.Prelude.{
  ℕ, ◌+◌, ◌^◌, ◌%◌, ◌≤◌, ◌<◌, ◌≡◌, true, none, some, List, [], ◌∷◌, ◌++◌, arith, refl, ==_refl, ◌∙◌,
}
use xpilot_fxi.Prelude.Int.{ℤ, pos, signed16}
use xpilot_fxi.Net.Format.{num, directives, start}
use xpilot_fxi.Net.Wire.{Reads, wire_all}
use xpilot_fxi.Net.Scanned.{scanf-wire}
use xpilot_fxi.Connections.Server.{Server, M, ◌>>◌, pure, call, put, set_power}
use xpilot_fxi.Connections.Acks.{scan_r}
use xpilot_fxi.Connections.Commands.{
  f_char, f_short, is_power, with_player, store_power, after_scan, scan_then, a_num, the_end,
  receive_power,
}

abbrev power_format : List ℕ
power_format = f_char ++ f_short

is_power-small : (kind : ℕ) → is_power kind ≡ true → kind < 256
is_power-small kind h = ground arith

-- The connection when the packet was scanned.
abbrev past : ℕ → Server → Server
past i s = put i (record (s.conns i) { r = record (s.conns i).r { ptr = (s.conns i).r.ptr + 3 } }) s

scan_r-power :
    (i kind value : ℕ) (s : Server)
    → kind < 256
    → value < 2 ^ 16
    → Reads
        (s.conns i).r.buf
        (s.conns i).r.ptr
        (wire_all (directives start power_format) (num kind ∷ num value ∷ []))
    → (s.conns i).r.ptr + 3 ≤ (s.conns i).r.len
    → scan_r i power_format s ≡ some ((pos 2, num kind ∷ num value ∷ []), past i s)
unfolding scan_r directives
scan_r-power i kind value s k v r h =
    let small : kind % 256 ≡ kind = omega arith in
    let short : value % 2 ^ 16 ≡ value = omega arith in
    let scanned =
      scanf-wire (s.conns i).r power_format (num kind ∷ num value ∷ []) s.incoming (tt, (tt, tt)) r
        h in
    rw (scan_r, scanned, small, short) refl

with_player-some :
    (i pl : ℕ) (rest : ℕ → M ℤ) (s : Server)
    → (s.conns i).pl ≡ some pl
    → with_player i rest s ≡ rest pl s
unfolding with_player
with_player-some i pl rest s e = rw (with_player, e) refl

-- Let a power packet be what is unread, with the type `kind` and the 16 bits `value`. Where the
-- connection has no player, as before the login, `Receive_power` follows a null pointer; otherwise it
-- gives the player the signed value, reads past the three bytes of the packet and returns 1.
pub receive_power_lem :
    (i kind value : ℕ) (s : Server)
    → is_power kind ≡ true
    → value < 2 ^ 16
    → Reads
        (s.conns i).r.buf
        (s.conns i).r.ptr
        (wire_all (directives start power_format) (num kind ∷ num value ∷ []))
    → (s.conns i).r.ptr + 3 ≤ (s.conns i).r.len
    → ((s.conns i).pl ≡ none → receive_power i s ≡ none)
      × ((pl : ℕ)
          → (s.conns i).pl ≡ some pl
          → (s' : Server) × (receive_power i s ≡ some (pos 1, s'))
            × (s'.calls ≡ s.calls ++ (set_power pl kind (signed16 value) ∷ []))
            × ((s'.conns i).r.ptr ≡ (s.conns i).r.ptr + 3))
unfolding receive_power scan_then after_scan a_num the_end store_power with_player
receive_power_lem i kind value s p v r h =
    let scanned = scan_r-power i kind value s (is_power-small kind p) v r h in
    (
      λ none_yet. rw (receive_power, scan_then, scanned, p, with_player, ==_refl i, none_yet) refl,
      λ pl has.
          let rest : ℕ → M ℤ = λ p. (do call (set_power p kind (signed16 value)); pure (pos 1)) in
          let same : ((past i s).conns i).pl ≡ some pl = rw (==_refl i) has in
          let reaches : receive_power i s ≡ with_player i rest (past i s) =
            rw (receive_power, scan_then, scanned, p) refl in
          (
            record (past i s) { calls = s.calls ++ (set_power pl kind (signed16 value) ∷ []) },
            reaches ∙ with_player-some i pl rest (past i s) same,
            refl,
            rw (==_refl i) refl,
          ),
    )
