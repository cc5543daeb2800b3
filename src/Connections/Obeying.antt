-- ===== src/Connections/Obeying.antt =====
-- The handlers of settings and commands keep the invariant of the table, if what they call does.
use Prim.Native.String.{String}
use xpilot_fxi.Prelude.{ℕ, ◌<◌, ◌≡◌, Option, none, some, List, [], ◌∷◌, ◌++◌, if◌then◌else◌, refl}
use xpilot_fxi.Prelude.Int.{ℤ, pos, signed16}
use xpilot_fxi.Net.Format.{Arg, num, str}
use xpilot_fxi.Connections.Server.{
  Connection, M, ◌>>◌, pure, change, call, Call, set_power, turn, set_fps,
}
use xpilot_fxi.Connections.Reliable.{positive}
use xpilot_fxi.Connections.Acks.{scan_r, refuse}
use xpilot_fxi.Connections.Handshake.{is_minus_one}
use xpilot_fxi.Connections.Commands.{
  after_scan, scan_then, a_num, a_str, the_end, f_char, f_short, with_player, is_power, store_power,
  receive_power, set_display, receive_display, receive_modifier_bank, receive_motd,
  receive_audio_request, wanted_fps, request_fps, receive_fps_request, receive_pointer_move,
}
use xpilot_fxi.Connections.Invariant.{Safe}
use xpilot_fxi.Connections.Safety.{Keeps, if-Keeps, IsSound-same}
use xpilot_fxi.Connections.Requests.{scan_r-Keeps, refuse-Keeps}
use xpilot_fxi.Connections.Welcome.{then-Keeps, quiet-Keeps}

pub call_then : {A : Type 0} (n : ℕ) (what : Call) (a : A) → Keeps n (do call what; pure a)
call_then n what a s v = IsSound-same n s _ refl refl refl refl v

pub a_num-Keeps :
    (n : ℕ) (rest : ℕ → List Arg → M ℤ)
    → ((v : ℕ) (values : List Arg) → Keeps n (rest v values))
    → (values : List Arg) → Keeps n (a_num rest values)
unfolding a_num
a_num-Keeps n rest k [] s v = tt
a_num-Keeps n rest k (num a ∷ values) s v = k a values s v
a_num-Keeps n rest k (str a ∷ values) s v = tt

pub a_str-Keeps :
    (n : ℕ) (rest : List ℕ → List Arg → M ℤ)
    → ((v : List ℕ) (values : List Arg) → Keeps n (rest v values))
    → (values : List Arg) → Keeps n (a_str rest values)
unfolding a_str
a_str-Keeps n rest k [] s v = tt
a_str-Keeps n rest k (num a ∷ values) s v = tt
a_str-Keeps n rest k (str a ∷ values) s v = k a values s v

pub the_end-Keeps :
    (n : ℕ) (rest : M ℤ) → Keeps n rest → (values : List Arg) → Keeps n (the_end rest values)
unfolding the_end
the_end-Keeps n rest k [] s v = k s v
the_end-Keeps n rest k (a ∷ values) s v = tt

module _ (n i : ℕ) (inside : i < n) where
  pub scan_then-Keeps :
      (fmt : List ℕ) (reason : String) (rest : List Arg → M ℤ)
      → ((values : List Arg) → Keeps n (rest values))
      → Keeps n (scan_then i fmt reason rest)
  unfolding scan_then after_scan
  scan_then-Keeps fmt reason rest k =
      then-Keeps n (scan_r i fmt) (after_scan i reason rest) (scan_r-Keeps n i inside fmt) (λ r.
        if-Keeps n (positive r.0) (rest r.1)
          (if is_minus_one r.0 then refuse i reason else pure r.0) (k r.1)
          (if-Keeps n (is_minus_one r.0) (refuse i reason) (pure r.0)
            (refuse-Keeps n i inside reason) (λ t w. w)))

  pub with_player-Keeps :
      (rest : ℕ → M ℤ) → ((pl : ℕ) → Keeps n (rest pl)) → Keeps n (with_player i rest)
  unfolding with_player
  with_player-Keeps rest k s v = go (s.conns i).pl
    where
      go : (pl : Option ℕ) → Safe n (elim pl [ none ↦ none | some p ↦ rest p s ])
      go none = tt
      go (some p) = k p s v

  -- A change that the invariant does not see, and then a result.
  pub quiet_then :
      (f : Connection → Connection) (r : ℤ)
      → ((c : Connection) → (f c).state ≡ c.state)
      → ((c : Connection) → (f c).drain_state ≡ c.drain_state)
      → ((c : Connection) → (f c).pl ≡ c.pl)
      → Keeps n (do change i f; pure r)
  quiet_then f r p q l =
      then-Keeps n (change i f) (λ _. pure r)
        (quiet-Keeps n i inside f p (λ c h. rw (p c, q c, l c) h)) (λ _ t w. w)

  pub receive_power-Keeps : Keeps n (receive_power i)
  unfolding receive_power store_power
  receive_power-Keeps = scan_then-Keeps (f_char ++ f_short) "read error" _ (
      a_num-Keeps n _ (λ kind. a_num-Keeps n _ (λ value.
        the_end-Keeps n (store_power i kind value) (
          if-Keeps n (is_power kind)
            (with_player i (λ pl. do call (set_power pl kind (signed16 value)); pure (pos 1)))
            (refuse i "not power")
            (with_player-Keeps _ (λ pl. call_then n (set_power pl kind (signed16 value)) (pos 1)))
            (refuse-Keeps n i inside "not power")))))

  pub receive_display-Keeps : Keeps n (receive_display i)
  unfolding receive_display set_display
  receive_display-Keeps =
      scan_then-Keeps (f_char ++ f_short ++ f_short ++ f_char ++ f_char) "read error" _ (
        a_num-Keeps n _ (λ kind. a_num-Keeps n _ (λ w. a_num-Keeps n _ (λ h. a_num-Keeps n _ (λ d.
          a_num-Keeps n _ (λ k.
            the_end-Keeps n _
              (quiet_then (set_display w h d k) (pos 1) (λ c. refl) (λ c. refl) (λ c. refl))))))))

  pub receive_modifier_bank-Keeps : Keeps n (receive_modifier_bank i)
  unfolding receive_modifier_bank
  receive_modifier_bank-Keeps = scan_then-Keeps _ "read modbank" (λ _. pure (pos 1)) (λ _ t w. w)

  pub receive_motd-Keeps : Keeps n (receive_motd i)
  unfolding receive_motd
  receive_motd-Keeps = scan_then-Keeps _ "read error" (λ _. pure (pos 1)) (λ _ t w. w)

  pub receive_audio_request-Keeps : Keeps n (receive_audio_request i)
  unfolding receive_audio_request
  receive_audio_request-Keeps = scan_then-Keeps _ "read error" (λ _. pure (pos 1)) (λ _ t w. w)

  request_fps-Keeps : (wanted : ℕ) → Keeps n (request_fps i wanted)
  unfolding request_fps
  request_fps-Keeps wanted s v = go (s.conns i).pl
    where
      go :
          (pl : Option ℕ)
          → Safe n (elim pl [
            | none ↦ some (pos 1, s)
            | some p ↦ (do call (set_fps p (wanted_fps wanted)); pure (pos 1)) s
          ])
      go none = v
      go (some p) = call_then n (set_fps p (wanted_fps wanted)) (pos 1) s v

  pub receive_fps_request-Keeps : Keeps n (receive_fps_request i)
  unfolding receive_fps_request
  receive_fps_request-Keeps = scan_then-Keeps _ "read error" _ (
      a_num-Keeps n _
        (λ kind. a_num-Keeps n _ (λ wanted. the_end-Keeps n _ (request_fps-Keeps wanted))))

  pub receive_pointer_move-Keeps : Keeps n (receive_pointer_move i)
  unfolding receive_pointer_move
  receive_pointer_move-Keeps = scan_then-Keeps _ "read error" _ (
      a_num-Keeps n _ (λ kind. a_num-Keeps n _ (λ movement.
        the_end-Keeps n _
          (with_player-Keeps _ (λ pl. call_then n (turn pl (signed16 movement)) (pos 1))))))
