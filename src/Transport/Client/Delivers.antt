-- ===== src/Transport/Client/Delivers.antt =====
-- What a send hands to gRPC, over which connections, whatever gRPC does.
use talent_challenge.Prelude.{
  ℕ, suc, Option, none, some, ◌<◌, ◌≡◌, refl, sym, ap, subst, ◌∙◌, ◌⊎◌, inl, inr, Bool, true, false,
  Bool-cases, none, Option-cases, List, [], ◌∷◌, ◌++◌, append-nil, append_assoc, String, arith,
  ◌==◌, ◌&&◌, if◌then◌else◌,
}
use talent_challenge.Prelude.Outcome.{Try, failed, done}
use talent_challenge.Prelude.Texts.{text_eq, text_eq_refl}
use talent_challenge.Transport.Client.{
  RaftMsgReq, RaftConn, Grpc, RaftClient, stop, remove_conn, open_conn, new_raft_conn, use_new,
  get_raft_conn, send_on, send_first, send,
}
use talent_challenge.Transport.Client.Clean.{IsClean, next_conn, IsClean-drop}
use talent_challenge.Transport.Client.Sends.{Got, get_raft_conn-Got, new_raft_conn-cases}

-- gRPC's world, with the calls of `Send` on its streams that were made, whether they returned an error
-- or not, and the number of errors that gRPC has returned
pub record Watched (W : Type 0) : Type 0 where
  pub world : W
  pub calls : List (RaftConn × RaftMsgReq)
  pub errors : ℕ

abbrev pub unwatched : {W : Type 0} → W → Watched W
unwatched w = record { world = w; calls = []; errors = 0 }

abbrev pub one_more : Option ℕ → ℕ → ℕ
one_more none n = n
one_more (some e) n = suc n

abbrev pub watched : {W : Type 0} → Grpc W → Grpc (Watched W)
watched grpc = record {
  dial = λ addr w.
      let r = grpc.dial addr w.world in
      (r.0, record w { world = r.1; errors = one_more r.0 w.errors });
  open_stream = λ c w.
      let r = grpc.open_stream c w.world in
      (r.0, record w { world = r.1; errors = one_more r.0 w.errors });
  stream_send = λ c msg w.
      let r = grpc.stream_send c msg w.world in
      (
        r.0,
        record { world = r.1; calls = w.calls ++ (c, msg) ∷ []; errors = one_more r.0 w.errors },
      );
}

abbrev is_on : ℕ → String → RaftConn → Bool
is_on n a c = (c.context == n) && text_eq a c.addr

-- The request of a call, or none
abbrev pub one_if : {A : Type 0} → Bool → A → List A
one_if b x = if b then x ∷ [] else []

-- The requests of the calls on the connection with this number and address
abbrev pub on_conn : ℕ → String → List (RaftConn × RaftMsgReq) → List RaftMsgReq
on_conn n a [] = []
on_conn n a ((c, msg) ∷ calls) = one_if (is_on n a c) msg ++ on_conn n a calls

on_conn-append :
    (n : ℕ) (a : String) (xs ys : List (RaftConn × RaftMsgReq))
    → on_conn n a (xs ++ ys) ≡ on_conn n a xs ++ on_conn n a ys
on_conn-append n a [] ys = refl
on_conn-append n a ((c, msg) ∷ xs) ys =
    ap (λ rest. one_if (is_on n a c) msg ++ rest) (on_conn-append n a xs ys)
    ∙ sym (append_assoc (one_if (is_on n a c) msg) (on_conn n a xs) (on_conn n a ys))

module _ {W : Type 0} (grpc : Grpc W) where
  new_raft_conn-calls :
      (addr : String) (rc : RaftClient) (w : Watched W)
      → (new_raft_conn (watched grpc) addr rc w).2.calls ≡ w.calls
  unfolding new_raft_conn
  new_raft_conn-calls addr rc w =
      let c : RaftConn = next_conn addr rc in
      let after = (watched grpc).dial addr w in
      elim (Option-cases after.0) [
        | inr (e, refused) ↦ rw (new_raft_conn, refused) refl
        | inl dialled ↦ elim (Option-cases ((watched grpc).open_stream c after.1).0) [
          | inr (e, refused) ↦ rw (new_raft_conn, open_conn, dialled, refused) refl
          | inl streams ↦ rw (new_raft_conn, open_conn, dialled, streams) refl
        ]
      ]

  use_new-calls :
      (addr : String) (r : Try ℕ RaftConn × RaftClient × Watched W)
      → (use_new (watched grpc) addr r).2.calls ≡ r.2.calls
  unfolding use_new
  use_new-calls addr (failed e, rc, w) = refl
  use_new-calls addr (done c, rc, w) = refl

  pub get_raft_conn-calls :
      (addr : String) (rc : RaftClient) (w : Watched W)
      → (get_raft_conn (watched grpc) addr rc w).2.calls ≡ w.calls
  unfolding get_raft_conn
  get_raft_conn-calls addr rc w = elim (Option-cases (rc.conns addr)) [
    | inr (c, there) ↦ rw (get_raft_conn, there) refl
    | inl free ↦
        rw (get_raft_conn, free)
          (use_new-calls addr (new_raft_conn (watched grpc) addr rc w)
            ∙ new_raft_conn-calls addr rc w)
  ]

  -- Where the map has no connection, the one that is returned is new.
  get_raft_conn-new :
      (addr : String) (rc : RaftClient) (w : Watched W) (c : RaftConn)
      → rc.conns addr ≡ none
      → (get_raft_conn (watched grpc) addr rc w).0 ≡ done c
      → c.context ≡ rc.made
  unfolding get_raft_conn use_new
  get_raft_conn-new addr rc w c free got =
      let opened : get_raft_conn (watched grpc) addr rc w
          ≡ use_new (watched grpc) addr (new_raft_conn (watched grpc) addr rc w) =
        rw (get_raft_conn, free) refl in
      let first : Try ℕ RaftConn × RaftClient × Watched W → Try ℕ RaftConn = λ r. r.0 in
      let got' = sym (ap first opened) ∙ got in
      elim (new_raft_conn-cases (watched grpc) addr rc w) [
        | inl (e, w', failing) ↦
            let bad : failed e ≡ done c =
              sym (ap (λ r. first (use_new (watched grpc) addr r)) failing) ∙ got' in
            absurd cc
        | inr (inl (e, w', failing)) ↦
            let bad : failed e ≡ done c =
              sym (ap (λ r. first (use_new (watched grpc) addr r)) failing) ∙ got' in
            absurd cc
        | inr (inr (w', made)) ↦
            let good : done (next_conn addr rc) ≡ done c =
              sym (ap (λ r. first (use_new (watched grpc) addr r)) made) ∙ got' in
            let same : next_conn addr rc ≡ c = cc in sym (ap (λ (x : RaftConn). x.context) same)
      ]

  -- The calls on one connection grew by the request, where its address is that of the send, or not at
  -- all.
  abbrev pub Handed :
      (addr : String)
      → RaftMsgReq
      → List (RaftConn × RaftMsgReq)
      → List (RaftConn × RaftMsgReq)
      → (n : ℕ) (a : String) → Type 0
  Handed addr msg before after n a =
      (b : Bool) × (on_conn n a after ≡ on_conn n a before ++ one_if b msg)
      × ((b ≡ false) ⊎ (text_eq a addr ≡ true))

  Handed-nothing :
      (addr : String) (msg : RaftMsgReq) (before after : List (RaftConn × RaftMsgReq)) (n : ℕ)
      (a : String)
      → after ≡ before
      → Handed addr msg before after n a
  Handed-nothing addr msg before after n a same =
      (false, ap (on_conn n a) same ∙ sym (append-nil (on_conn n a before)), inl refl)

  Handed-one :
      (addr : String) (msg : RaftMsgReq) (before after : List (RaftConn × RaftMsgReq)) (n : ℕ)
      (a : String) (c : RaftConn)
      → c.addr ≡ addr
      → after ≡ before ++ (c, msg) ∷ []
      → Handed addr msg before after n a
  Handed-one addr msg before after n a c owner grew = (
    is_on n a c,
    ap (on_conn n a) grew
        ∙ on_conn-append n a before ((c, msg) ∷ [])
        ∙ ap (λ new. on_conn n a before ++ new) (append-nil (one_if (is_on n a c) msg)),
    elim (Bool-cases (is_on n a c)) [
      | inr off ↦ inl off
      | inl on ↦ inr (subst (λ at. text_eq a at ≡ true) owner (ground (arith, on)))
    ],
  )

  -- A call on another connection adds nothing.
  on_conn-off :
      (n : ℕ) (a : String) (c : RaftConn) (msg : RaftMsgReq)
      (before after : List (RaftConn × RaftMsgReq))
      → (c.context == n) ≡ false
      → after ≡ before ++ (c, msg) ∷ []
      → on_conn n a after ≡ on_conn n a before
  on_conn-off n a c msg before after other grew =
      ap (on_conn n a) grew
      ∙ on_conn-append n a before ((c, msg) ∷ [])
      ∙ rw other (append-nil (on_conn n a before))

  -- Two calls on two connections
  Handed-two :
      (addr : String) (msg : RaftMsgReq) (before after : List (RaftConn × RaftMsgReq)) (n : ℕ)
      (a : String) (c c' : RaftConn)
      → c.addr ≡ addr
      → c'.addr ≡ addr
      → c.context < c'.context
      → after ≡ (before ++ (c, msg) ∷ []) ++ (c', msg) ∷ []
      → Handed addr msg before after n a
  Handed-two addr msg before after n a c c' owner owner' newer grew =
      let mid = before ++ (c, msg) ∷ [] in
      elim (Bool-cases (c.context == n)) [
        | inl hit ↦
            let other : (c'.context == n) ≡ false = ground (arith, hit, newer) in
            let (b, eq, side) = Handed-one addr msg before mid n a c owner refl in
            (b, on_conn-off n a c' msg mid after other grew ∙ eq, side)
        | inr miss ↦
            let (b, eq, side) = Handed-one addr msg mid after n a c' owner' grew in
            (
              b,
              eq ∙ ap (λ xs. xs ++ one_if b msg) (on_conn-off n a c msg before mid miss refl),
              side,
            )
      ]

  -- The second attempt hands over nothing or one call more, on the connection that was got.
  send_on-calls :
      (msg : RaftMsgReq) (r : Try ℕ RaftConn × RaftClient × Watched W)
      → ((send_on (watched grpc) msg r).2.calls ≡ r.2.calls)
        ⊎ ((c : RaftConn) × (r.0 ≡ done c)
            × ((send_on (watched grpc) msg r).2.calls ≡ r.2.calls ++ (c, msg) ∷ []))
  unfolding send_on
  send_on-calls msg (failed e, rc, w) = inl refl
  send_on-calls msg (done c, rc, w) = inr (c, refl, refl)

  send_first-Handed :
      (addr : String) (msg : RaftMsgReq) (r : Try ℕ RaftConn × RaftClient × Watched W) (n : ℕ)
      (a : String)
      → Got (watched grpc) addr r
      → Handed addr msg r.2.calls (send_first (watched grpc) addr msg r).2.calls n a
  unfolding send_first remove_conn stop
  send_first-Handed addr msg (failed e, rc, w) n a got =
      Handed-nothing addr msg w.calls w.calls n a refl
  send_first-Handed addr msg (done c, rc, w) n a got =
      let sent = (watched grpc).stream_send c msg w in
      let (owner, old, alive) = got.0.live addr c (got.1 c refl) in
      elim (Option-cases sent.0) [
        | inl taken ↦
            rw (send_first, taken)
              (Handed-one addr msg w.calls (w.calls ++ (c, msg) ∷ []) n a c owner refl)
        | inr (e, refused) ↦
            let dropped = remove_conn addr (stop c rc) in
            let again = get_raft_conn (watched grpc) addr dropped sent.1 in
            let last = send_on (watched grpc) msg again in
            let kept = get_raft_conn-calls addr dropped sent.1 in
            rw (send_first, refused)
              (elim (send_on-calls msg again) [
                | inl same ↦ Handed-one addr msg w.calls last.2.calls n a c owner (same ∙ kept)
                | inr (c', got', grew) ↦
                    let got_again =
                      get_raft_conn-Got (watched grpc) addr dropped sent.1
                        (IsClean-drop addr c rc got.0 (got.1 c refl)) in
                    Handed-two addr msg w.calls last.2.calls n a c c' owner
                      (got_again.0.live addr c' (got_again.1 c' got')).0
                      (omega (
                        arith,
                        old,
                        get_raft_conn-new addr dropped sent.1 c' (rw (text_eq_refl addr) refl) got',
                      ))
                      (grew ∙ ap (λ calls. calls ++ (c', msg) ∷ []) kept)
              ])
      ]

  pub send-Handed :
      (addr : String) (msg : RaftMsgReq) (rc : RaftClient) (w : Watched W) (n : ℕ) (a : String)
      → IsClean rc
      → Handed addr msg w.calls (send (watched grpc) addr msg rc w).2.calls n a
  unfolding send
  send-Handed addr msg rc w n a clean =
      subst (λ before. Handed addr msg before (send (watched grpc) addr msg rc w).2.calls n a)
        (get_raft_conn-calls addr rc w)
        (send_first-Handed addr msg (get_raft_conn (watched grpc) addr rc w) n a
          (get_raft_conn-Got (watched grpc) addr rc w clean))
