-- ===== src/Connections/Welcome.antt =====
-- The handshake and the login keep the invariant of the table.
use Prim.Native.String.{String}
use xpilot_fxi.Prelude.{
  ℕ, ◌<◌, ◌≡◌, ◌⊎◌, inl, inr, Bool, false, List, [], ◌∷◌, ◌==◌, if◌then◌else◌, refl, Option-cases,
}
use xpilot_fxi.Prelude.Int.{ℤ, pos}
use xpilot_fxi.Names.{fix_real_name}
use xpilot_fxi.Net.Format.{Arg, num, str}
use xpilot_fxi.Net.Print.{printf}
use xpilot_fxi.Net.Sockbuf.{clear}
use xpilot_fxi.Connections.Server.{
  ConnState, setup, login, drain, Connection, M, ◌>>=◌, ◌>>◌, resume, pure, change, set_state,
}
use xpilot_fxi.Connections.Reliable.{positive, send_reliable}
use xpilot_fxi.Connections.Acks.{scan_r, refuse, pkt_reply, pkt_failure, pkt_success}
use xpilot_fxi.Connections.Handshake.{
  print_c, send_reply, reply_format, is_minus_one, reject, send_magic, confirm, verified,
  verify_names, verify, receive_first, answer_first, handle_listening, is_listening, pkt_verify,
  pkt_magic, magic_format, verify_format, same_bytes, FirstPacket, nothing, broken, packet,
}
use xpilot_fxi.Connections.Invariant.{IsLegal, set_state-Safe}
use xpilot_fxi.Connections.Safety.{Keeps, bind-Safe, if-Keeps, change-Keeps}
use xpilot_fxi.Connections.Steps.{put-quiet, send_reliable-Keeps}
use xpilot_fxi.Connections.Requests.{scan_r-Keeps, refuse-Keeps}

-- Code after code.
pub then-Keeps :
    {A B : Type 0} (n : ℕ) (m : M A) (f : A → M B)
    → Keeps n m
    → ((a : A) → Keeps n (f a))
    → Keeps n (λ s. resume f (m s))
then-Keeps n m f p q s v = bind-Safe n f (m s) (p s v) q

module _ (n i : ℕ) (inside : i < n) where
  pub quiet-Keeps :
      (f : Connection → Connection)
      → ((c : Connection) → (f c).state ≡ c.state)
      → ((c : Connection) → IsLegal c → IsLegal (f c))
      → Keeps n (change i f)
  quiet-Keeps f p q = change-Keeps n i inside f (λ c. (p c, q c))

  pub print_c-Keeps : (fmt : List ℕ) (args : List Arg) → Keeps n (print_c i fmt args)
  unfolding print_c
  print_c-Keeps fmt args s v = elim (Option-cases (printf false (s.conns i).c fmt args)) [
    | inl e ↦ rw (e, print_c) tt
    | inr ((r, c'), e) ↦
        rw (e, print_c) (put-quiet n i inside (record (s.conns i) { c = c' }) s refl refl refl v)
  ]

  pub send_reply-Keeps : (replyto result : ℕ) → Keeps n (send_reply i replyto result)
  unfolding send_reply
  send_reply-Keeps replyto result =
      let args = num pkt_reply ∷ num replyto ∷ num result ∷ [] in
      then-Keeps n (print_c i reply_format args)
        (λ r. if is_minus_one r then refuse i "write error" else pure r)
        (print_c-Keeps reply_format args)
        (λ r.
          if-Keeps n (is_minus_one r) (refuse i "write error") (pure r)
            (refuse-Keeps n i inside "write error") (λ s v. v))

  reject-Keeps : (reason : String) → Keeps n (reject i reason)
  unfolding reject
  reject-Keeps reason =
      then-Keeps n (send_reply i pkt_verify pkt_failure) (λ _. do send_reliable i; refuse i reason)
        (send_reply-Keeps pkt_verify pkt_failure)
        (λ _.
          then-Keeps n (send_reliable i) (λ _. refuse i reason) (send_reliable-Keeps n i inside)
            (λ _. refuse-Keeps n i inside reason))

  send_magic-Keeps : Keeps n (send_magic i)
  unfolding send_magic
  send_magic-Keeps s v =
      let args = num pkt_magic ∷ num (s.conns i).magic ∷ [] in
      let send : M Bool = (do m ← send_reliable i; pure (positive m)) in
      bind-Safe n (λ r. if positive r then send else pure false) (print_c i magic_format args s)
        (print_c-Keeps magic_format args s v)
        (λ r.
          if-Keeps n (positive r) send (pure false)
            (then-Keeps n (send_reliable i) (λ m. pure (positive m))
              (send_reliable-Keeps n i inside) (λ m t w. w))
            (λ t w. w))

  confirm-Keeps : Keeps n (confirm i)
  unfolding confirm
  confirm-Keeps =
      then-Keeps n (send_reply i pkt_verify pkt_success)
        (λ r. if is_minus_one r then pure false else send_magic i)
        (send_reply-Keeps pkt_verify pkt_success)
        (λ r. if-Keeps n (is_minus_one r) (pure false) (send_magic i) (λ t w. w) send_magic-Keeps)

  -- To wait for the acknowledgement, and go on in another state.
  pub drain-Keeps :
      {A : Type 0} (a : A) (later : ConnState)
      → (later ≡ setup) ⊎ (later ≡ login)
      → Keeps n (do set_state i drain later; pure a)
  drain-Keeps a later l =
      then-Keeps n (set_state i drain later) (λ _. pure a)
        (λ s v. set_state-Safe n i inside drain later s l v) (λ _ s v. v)

  verified-Keeps : Keeps n (verified i)
  unfolding verified
  verified-Keeps =
      let next : Bool → M ℤ = λ ok.
        if ok then (do set_state i drain setup; pure (pos 1)) else refuse i "confirm failed" in
      then-Keeps n (change i (λ conn. record conn { w = clear conn.w })) (λ _. confirm i >>= next)
        (quiet-Keeps (λ conn. record conn { w = clear conn.w }) (λ c. refl) (λ c l. l))
        (λ _. then-Keeps n (confirm i) next confirm-Keeps (λ ok.
          if-Keeps n ok (do set_state i drain setup; pure (pos 1)) (refuse i "confirm failed")
            (drain-Keeps (pos 1) setup (inl refl)) (refuse-Keeps n i inside "confirm failed")))

  verify_names-Keeps : (values : List Arg) → Keeps n (verify_names i values)
  unfolding verify_names
  verify_names-Keeps (num kind ∷ str real ∷ str nick ∷ []) s v =
      if-Keeps n (same_bytes (fix_real_name real) (s.conns i).real) (verified i)
        (reject i "verify incorrect") verified-Keeps (reject-Keeps "verify incorrect") s v
  verify_names-Keeps [] s v = tt
  verify_names-Keeps (str a ∷ rest) s v = tt
  verify_names-Keeps (num a ∷ []) s v = tt
  verify_names-Keeps (num a ∷ num b ∷ rest) s v = tt
  verify_names-Keeps (num a ∷ str b ∷ []) s v = tt
  verify_names-Keeps (num a ∷ str b ∷ num c ∷ rest) s v = tt
  verify_names-Keeps (num a ∷ str b ∷ str c ∷ d ∷ rest) s v = tt

  verify-Keeps : Keeps n (verify i)
  unfolding verify
  verify-Keeps s v =
      let next : ℤ × List Arg → M ℤ =
        λ r. if positive r.0 then verify_names i r.1 else reject i "verify incomplete" in
      if-Keeps n ((s.conns i).r.buf 0 == pkt_verify) (scan_r i verify_format >>= next)
        (reject i "not connecting")
        (then-Keeps n (scan_r i verify_format) next (scan_r-Keeps n i inside verify_format) (λ r.
          if-Keeps n (positive r.0) (verify_names i r.1) (reject i "verify incomplete")
            (verify_names-Keeps r.1) (reject-Keeps "verify incomplete")))
        (reject-Keeps "not connecting") s v

  answer_first-Keeps :
      (connects : Bool) (first : FirstPacket) → Keeps n (answer_first i connects first)
  unfolding answer_first
  answer_first-Keeps connects nothing =
      then-Keeps n (change i (λ conn. record conn { r = clear conn.r })) (λ _. pure (pos 0))
        (quiet-Keeps (λ conn. record conn { r = clear conn.r }) (λ c. refl) (λ c l. l)) (λ _ s v. v)
  answer_first-Keeps connects broken =
      then-Keeps n (change i (λ conn. record conn { r = clear conn.r }))
        (λ _. refuse i "read first packet error")
        (quiet-Keeps (λ conn. record conn { r = clear conn.r }) (λ c. refl) (λ c l. l))
        (λ _. refuse-Keeps n i inside "read first packet error")
  answer_first-Keeps connects (packet port byte rest) =
      let got : Connection → Connection =
        λ conn. record conn { r = receive_first (byte ∷ rest) conn.r; his_port = port } in
      then-Keeps n (change i got) (λ _. if connects then verify i else refuse i "connect error")
        (quiet-Keeps got (λ c. refl) (λ c l. l))
        (λ _.
          if-Keeps n connects (verify i) (refuse i "connect error") verify-Keeps
            (refuse-Keeps n i inside "connect error"))

  pub handle_listening-Keeps :
      (connects : Bool) (first : FirstPacket) → Keeps n (handle_listening i connects first)
  unfolding handle_listening
  handle_listening-Keeps connects first s v =
      if-Keeps n (is_listening (s.conns i).state) (answer_first i connects first)
        (refuse i "not listening") (answer_first-Keeps connects first)
        (refuse-Keeps n i inside "not listening") s v
