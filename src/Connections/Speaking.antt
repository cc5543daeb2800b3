-- ===== src/Connections/Speaking.antt =====
-- The handlers of what players do keep the invariant of the table, if what they call works on
-- connections of the table.
use xpilot_fxi.Prelude.{
  ℕ, suc, ◌+◌, ◌<◌, some, List, [], ◌∷◌, ◌++◌, ltb, leb, ◌==◌, if◌then◌else◌, refl, All, Bool, true,
  false,
}
use xpilot_fxi.Prelude.Int.{ℤ, pos, ltb_ℤ, signed32}
use xpilot_fxi.Prelude.Memory.{load}
use xpilot_fxi.Net.Format.{Arg, num}
use xpilot_fxi.Connections.Server.{
  Connection, M, ◌>>=◌, ◌>>◌, pure, connection, change, call, fuel_seen,
}
use xpilot_fxi.Connections.Reliable.{positive}
use xpilot_fxi.Connections.Acks.{scan_r, refuse}
use xpilot_fxi.Connections.Handshake.{print_c, is_minus_one}
use xpilot_fxi.Connections.Commands.{
  a_num, the_end, f_char, f_long, with_player, pkt_talk_ack, keyboard_size, skip_keys, is_macro,
}
use xpilot_fxi.Connections.Actions.{
  Effect, hangs_up, prints, perform, perform_all, Commands, choose_ship, receive_shape,
  acknowledge_fuel, receive_ack_fuel, speak, hear, talk, receive_talk, count_keyboard, new_keys,
  keys, receive_keyboard,
}
use xpilot_fxi.Connections.Safety.{Keeps, bind-Safe, if-Safe, if-Keeps, destroy-Keeps}
use xpilot_fxi.Connections.Requests.{scan_r-Keeps, refuse-Keeps}
use xpilot_fxi.Connections.Welcome.{then-Keeps, quiet-Keeps, print_c-Keeps}
use xpilot_fxi.Connections.Obeying.{
  call_then, a_num-Keeps, a_str-Keeps, the_end-Keeps, scan_then-Keeps, with_player-Keeps,
  quiet_then,
}

-- What a call into the rest of the server does, it does to a connection of the table.
abbrev pub IsInside : ℕ → Effect → Type 0
IsInside n (hangs_up i reason) = i < n
IsInside n (prints i fmt args) = i < n

pub record CommandsFit (n : ℕ) (out : Commands) : Type 0 where
  pub keyboard : (pl : ℕ) (keys : List ℕ) → All (IsInside n) (out.handle_keyboard pl keys)
  pub command : (pl : ℕ) (text : List ℕ) → All (IsInside n) (out.handle_player_command pl text)
  pub talk : (pl : ℕ) (text : List ℕ) → All (IsInside n) (out.handle_talk pl text)

perform-Keeps : (n : ℕ) (e : Effect) → IsInside n e → Keeps n (perform e)
unfolding perform
perform-Keeps n (hangs_up i reason) h = destroy-Keeps n i h reason
perform-Keeps n (prints i fmt args) h =
    then-Keeps n (print_c i fmt args) (λ _. pure tt) (print_c-Keeps n i h fmt args) (λ _ s v. v)

perform_all-Keeps : (n : ℕ) (es : List Effect) → All (IsInside n) es → Keeps n (perform_all es)
unfolding perform_all
perform_all-Keeps n [] h s v = v
perform_all-Keeps n (e ∷ es) h s v =
    then-Keeps n (perform e) (λ _. perform_all es) (perform-Keeps n e h.0)
      (λ _. perform_all-Keeps n es h.1) s v

if-Inside :
    (n : ℕ) (b : Bool) (xs ys : List Effect)
    → All (IsInside n) xs
    → All (IsInside n) ys
    → All (IsInside n) (if b then xs else ys)
if-Inside n true xs ys p q = p
if-Inside n false xs ys p q = q

module _ (n i : ℕ) (inside : i < n) (out : Commands) (good : CommandsFit n out) where
  pub receive_shape-Keeps : Keeps n (receive_shape out i)
  unfolding receive_shape choose_ship
  receive_shape-Keeps = scan_then-Keeps n i inside _ "read shape" _ (
      a_num-Keeps n _ (λ kind. a_str-Keeps n _ (λ text. the_end-Keeps n _ (
        scan_then-Keeps n i inside _ "read shape ext" _ (
          a_str-Keeps n _ (λ more. the_end-Keeps n _ (
            quiet_then n i inside (choose_ship out i (text ++ more)) (pos 1) (λ c. refl) (λ c. refl)
              (λ c. refl))))))))

  acknowledge_fuel-Keeps : (loops fuel : ℕ) → Keeps n (acknowledge_fuel out i loops fuel)
  unfolding acknowledge_fuel
  acknowledge_fuel-Keeps loops fuel s v =
      let seen : M ℤ = (do conn ← connection i; call (fuel_seen fuel conn.cid); pure (pos 1)) in
      let later : M ℤ =
        if ltb_ℤ (out.last_change fuel) (signed32 loops) then seen else pure (pos 1) in
      if-Keeps n (leb out.num_fuels fuel) (refuse i "bad fuel ack") later
        (refuse-Keeps n i inside "bad fuel ack")
        (if-Keeps n (ltb_ℤ (out.last_change fuel) (signed32 loops)) seen (pure (pos 1))
          (λ t w. call_then n (fuel_seen fuel (t.conns i).cid) (pos 1) t w) (λ t w. w))
        s v

  pub receive_ack_fuel-Keeps : Keeps n (receive_ack_fuel out i)
  unfolding receive_ack_fuel
  receive_ack_fuel-Keeps = scan_then-Keeps n i inside _ "read error" _ (
      a_num-Keeps n _ (λ kind.
        a_num-Keeps n _ (λ loops.
          a_num-Keeps n _ (λ fuel. the_end-Keeps n _ (acknowledge_fuel-Keeps loops fuel)))))

  speak-Keeps : (pl : ℕ) (text : List ℕ) → Keeps n (speak out i pl text)
  unfolding speak
  speak-Keeps pl [] = perform_all-Keeps n (out.handle_talk pl []) (good.talk pl [])
  speak-Keeps pl (c ∷ text) = perform_all-Keeps n _ (
      if-Inside n (c == b'/') (out.handle_player_command pl text) (out.handle_talk pl (c ∷ text))
        (good.command pl text) (good.talk pl (c ∷ text)))

  hear-Keeps : (seq : ℕ) (text : List ℕ) (r : ℤ) → Keeps n (hear out i seq text r)
  unfolding hear
  hear-Keeps seq text r =
      let mark : Connection → Connection =
        λ conn. record conn { talk_sequence_num = signed32 seq } in
      let go_on : M ℤ = with_player i (λ pl. do speak out i pl text; pure (pos 1)) in
      if-Keeps n (positive r) (do change i mark; go_on)
        (if is_minus_one r then refuse i "write error" else pure r)
        (then-Keeps n (change i mark) (λ _. go_on)
          (quiet-Keeps n i inside mark (λ c. refl) (λ c l. l))
          (λ _.
            with_player-Keeps n i inside (λ pl. do speak out i pl text; pure (pos 1))
              (λ pl.
                then-Keeps n (speak out i pl text) (λ _. pure (pos 1)) (speak-Keeps pl text)
                  (λ _ t w. w))))
        (if-Keeps n (is_minus_one r) (refuse i "write error") (pure r)
          (refuse-Keeps n i inside "write error") (λ t w. w))

  talk-Keeps : (seq : ℕ) (text : List ℕ) → Keeps n (talk out i seq text)
  unfolding talk
  talk-Keeps seq text s v =
      let args = num pkt_talk_ack ∷ num seq ∷ [] in
      if-Safe n (ltb_ℤ (s.conns i).talk_sequence_num (signed32 seq))
        ((print_c i (f_char ++ f_long) args >>= hear out i seq text) s) (some (pos 1, s))
        (bind-Safe n (hear out i seq text) (print_c i (f_char ++ f_long) args s)
          (print_c-Keeps n i inside (f_char ++ f_long) args s v) (hear-Keeps seq text))
        v

  pub receive_talk-Keeps : Keeps n (receive_talk out i)
  unfolding receive_talk
  receive_talk-Keeps = scan_then-Keeps n i inside _ "read error" _ (
      a_num-Keeps n _ (λ kind.
        a_num-Keeps n _ (λ seq. a_str-Keeps n _ (λ text. the_end-Keeps n _ (talk-Keeps seq text)))))

  count_keyboard-Keeps : Keeps n (count_keyboard out i)
  unfolding count_keyboard
  count_keyboard-Keeps s v =
      let conn = s.conns i in
      let up : Connection → Connection =
        λ c. record c { num_keyboard_updates = suc c.num_keyboard_updates } in
      let twice = is_macro conn.num_keyboard_updates conn.state in
      then-Keeps n (change i up) (λ _. if twice then refuse i "no macros" else pure (pos 1))
        (quiet-Keeps n i inside up (λ c. refl) (λ c l. l))
        (λ _.
          if-Keeps n twice (refuse i "no macros") (pure (pos 1))
            (refuse-Keeps n i inside "no macros") (λ t w. w))
        s v

  new_keys-Keeps : (key_change : ℕ) → Keeps n (new_keys out i key_change)
  unfolding new_keys
  new_keys-Keeps key_change =
      let took : Connection → Connection =
        λ c. record (skip_keys c) { last_key_change = signed32 key_change } in
      with_player-Keeps n i inside _ (λ pl s v.
        let held = load (s.conns i).r.buf (s.conns i).r.ptr keyboard_size in
        then-Keeps n (change i took)
          (λ _. do perform_all (out.handle_keyboard pl held); count_keyboard out i)
          (quiet-Keeps n i inside took (λ c. refl) (λ c l. l))
          (λ _.
            then-Keeps n (perform_all (out.handle_keyboard pl held)) (λ _. count_keyboard out i)
              (perform_all-Keeps n (out.handle_keyboard pl held) (good.keyboard pl held))
              (λ _. count_keyboard-Keeps))
          s v)

  keys-Keeps : (key_change : ℕ) → Keeps n (keys out i key_change)
  unfolding keys
  keys-Keeps key_change s v =
      if-Safe n (ltb_ℤ (s.conns i).last_key_change (signed32 key_change))
        (new_keys out i key_change s) ((do change i skip_keys; count_keyboard out i) s)
        (new_keys-Keeps key_change s v)
        (then-Keeps n (change i skip_keys) (λ _. count_keyboard out i)
          (quiet-Keeps n i inside skip_keys (λ c. refl) (λ c l. l)) (λ _. count_keyboard-Keeps) s v)

  pub receive_keyboard-Keeps : Keeps n (receive_keyboard out i)
  unfolding receive_keyboard
  receive_keyboard-Keeps s v =
      let conn = s.conns i in
      let read : List Arg → M ℤ =
        a_num (λ kind. a_num (λ key_change. the_end (keys out i key_change))) in
      let whole : ℤ × List Arg → M ℤ = λ r. read r.1 in
      if-Safe n (ltb conn.r.len (conn.r.ptr + keyboard_size + 1 + 4)) (some (pos 0, s))
        ((scan_r i (f_char ++ f_long) >>= whole) s) v
        (bind-Safe n whole (scan_r i (f_char ++ f_long) s)
          (scan_r-Keeps n i inside (f_char ++ f_long) s v)
          (λ r.
            a_num-Keeps n _
              (λ kind.
                a_num-Keeps n _
                  (λ key_change. the_end-Keeps n (keys out i key_change) (keys-Keeps key_change)))
              r.1))
