-- ===== src/Transport/Client/Hands.antt =====
-- That a send hands its request to gRPC, unless gRPC returns an error meanwhile.
use talent_challenge.Prelude.{
  ℕ, suc, ◌<◌, ◌≤◌, ◌≡◌, refl, sym, ap, ◌∙◌, ◌⊎◌, inl, inr, Option, none, some, Option-cases, List,
  [], ◌∷◌, ◌++◌, append-nil, append_assoc, String, arith, if◌then◌else◌,
}
use talent_challenge.Prelude.Outcome.{Try, failed, done}
use talent_challenge.Prelude.Texts.{text_eq}
use talent_challenge.Transport.Client.{
  RaftMsgReq, RaftConn, Grpc, RaftClient, stop, remove_conn, open_conn, new_raft_conn, use_new,
  get_raft_conn, send_on, send_first, send,
}
use talent_challenge.Transport.Client.Clean.{IsClean, next_conn}
use talent_challenge.Transport.Client.Sends.{Got, get_raft_conn-Got}
use talent_challenge.Transport.Client.Delivers.{Watched, one_more, watched, get_raft_conn-calls}

-- The requests of the calls on connections to this address
abbrev pub at_addr : String → List (RaftConn × RaftMsgReq) → List RaftMsgReq
at_addr a [] = []
at_addr a ((c, msg) ∷ calls) = (if text_eq a c.addr then msg ∷ [] else []) ++ at_addr a calls

at_addr-append :
    (a : String) (xs ys : List (RaftConn × RaftMsgReq))
    → at_addr a (xs ++ ys) ≡ at_addr a xs ++ at_addr a ys
at_addr-append a [] ys = refl
at_addr-append a ((c, msg) ∷ xs) ys =
    ap (λ rest. (if text_eq a c.addr then msg ∷ [] else []) ++ rest) (at_addr-append a xs ys)
    ∙ sym (append_assoc (if text_eq a c.addr then msg ∷ [] else []) (at_addr a xs) (at_addr a ys))

one_more-le : (o : Option ℕ) (n : ℕ) → n ≤ one_more o n
one_more-le none n = omega arith
one_more-le (some e) n = omega arith

module _ {W : Type 0} (grpc : Grpc W) where
  -- A connection without an error, or an error more
  abbrev Gets : Watched W → Try ℕ RaftConn × RaftClient × Watched W → Type 0
  Gets w r = (w.errors < r.2.errors) ⊎ ((r.2.errors ≡ w.errors) × ((c : RaftConn) × (r.0 ≡ done c)))

  new_raft_conn-Gets :
      (addr : String) (rc : RaftClient) (w : Watched W)
      → Gets w (new_raft_conn (watched grpc) addr rc w)
  unfolding new_raft_conn
  new_raft_conn-Gets addr rc w =
      let c : RaftConn = next_conn addr rc in
      let after = (watched grpc).dial addr w in
      elim (Option-cases (grpc.dial addr w.world).0) [
        | inr (e, refused) ↦
            let failed_now = ap (λ o. one_more o w.errors) refused in
            rw (new_raft_conn, refused) (inl (omega (arith, failed_now)))
        | inl dialled ↦ elim (Option-cases (grpc.open_stream c (grpc.dial addr w.world).1).0) [
          | inr (e, refused) ↦
              let failed_now =
                ap (λ o. one_more o (one_more (grpc.dial addr w.world).0 w.errors)) refused in
              let fine = ap (λ o. one_more o w.errors) dialled in
              rw (new_raft_conn, open_conn, dialled, refused)
                (inl (omega (arith, failed_now, fine)))
          | inl streams ↦
              rw (new_raft_conn, open_conn, dialled, streams)
                (inr (
                  ap (λ o. one_more o (one_more (grpc.dial addr w.world).0 w.errors)) streams
                      ∙ ap (λ o. one_more o w.errors) dialled,
                  (c, refl),
                ))
        ]
      ]

  use_new-Gets :
      (addr : String) (w : Watched W) (r : Try ℕ RaftConn × RaftClient × Watched W)
      → Gets w r
      → Gets w (use_new (watched grpc) addr r)
  unfolding use_new
  use_new-Gets addr w (failed e, rc, after) gets = gets
  use_new-Gets addr w (done c, rc, after) gets = gets

  get_raft_conn-Gets :
      (addr : String) (rc : RaftClient) (w : Watched W)
      → Gets w (get_raft_conn (watched grpc) addr rc w)
  unfolding get_raft_conn
  get_raft_conn-Gets addr rc w = elim (Option-cases (rc.conns addr)) [
    | inr (c, there) ↦ rw (get_raft_conn, there) (inr (refl, (c, refl)))
    | inl free ↦
        rw (get_raft_conn, free)
          (use_new-Gets addr w (new_raft_conn (watched grpc) addr rc w)
            (new_raft_conn-Gets addr rc w))
  ]

  send_on-errors :
      (msg : RaftMsgReq) (r : Try ℕ RaftConn × RaftClient × Watched W)
      → r.2.errors ≤ (send_on (watched grpc) msg r).2.errors
  unfolding send_on
  send_on-errors msg (failed e, rc, w) = omega arith
  send_on-errors msg (done c, rc, w) = one_more-le (grpc.stream_send c msg w.world).0 w.errors

  -- An error more, or the request on a connection to the address, and none elsewhere
  abbrev pub Hands : String → RaftMsgReq → Watched W → Watched W → String → Type 0
  Hands addr msg w after a =
      (w.errors < after.errors)
      ⊎ ((after.errors ≡ w.errors)
          × (at_addr a after.calls
              ≡ at_addr a w.calls ++ (if text_eq a addr then msg ∷ [] else [])))

  send_first-Hands :
      (addr : String) (msg : RaftMsgReq) (r : Try ℕ RaftConn × RaftClient × Watched W)
      (w : Watched W) (a : String)
      → Got (watched grpc) addr r
      → Gets w r
      → r.2.calls ≡ w.calls
      → Hands addr msg w (send_first (watched grpc) addr msg r).2 a
  unfolding send_first
  send_first-Hands addr msg (failed e, rc, now) w a got (inl more) same = inl more
  send_first-Hands addr msg (failed e, rc, now) w a got (inr (still, (c, bad))) same = absurd cc
  send_first-Hands addr msg (done c, rc, now) w a got gets same =
      let sent = (watched grpc).stream_send c msg now in
      let owner = (got.0.live addr c (got.1 c refl)).0 in
      let before : w.errors ≤ now.errors = elim gets [
        | inl more ↦ omega (arith, more)
        | inr (still, there) ↦ omega (arith, still)
      ] in
      elim (Option-cases (grpc.stream_send c msg now.world).0) [
        | inl taken ↦
            rw (send_first, taken)
              (elim gets [
                | inl more ↦ inl (omega (arith, more, ap (λ o. one_more o now.errors) taken))
                | inr (still, there) ↦ inr (
                  ap (λ o. one_more o now.errors) taken ∙ still,
                  ap (λ calls. at_addr a (calls ++ (c, msg) ∷ [])) same
                      ∙ at_addr-append a w.calls ((c, msg) ∷ [])
                      ∙ ap (λ new. at_addr a w.calls ++ new)
                          (append-nil (if text_eq a c.addr then msg ∷ [] else []))
                      ∙ ap (λ at. at_addr a w.calls ++ (if text_eq a at then msg ∷ [] else []))
                          owner,
                )
              ])
        | inr (e, refused) ↦
            let dropped = remove_conn addr (stop c rc) in
            let again = get_raft_conn (watched grpc) addr dropped sent.1 in
            let one : sent.1.errors ≡ suc now.errors = ap (λ o. one_more o now.errors) refused in
            let grown : sent.1.errors ≤ again.2.errors =
              elim (get_raft_conn-Gets addr dropped sent.1) [
                | inl more ↦ omega (arith, more)
                | inr (still, there) ↦ omega (arith, still)
              ] in
            rw (send_first, refused)
              (inl (omega (arith, before, one, grown, send_on-errors msg again)))
      ]

  pub send-Hands :
      (addr : String) (msg : RaftMsgReq) (rc : RaftClient) (w : Watched W) (a : String)
      → IsClean rc
      → Hands addr msg w (send (watched grpc) addr msg rc w).2 a
  unfolding send
  send-Hands addr msg rc w a clean =
      send_first-Hands addr msg (get_raft_conn (watched grpc) addr rc w) w a
        (get_raft_conn-Got (watched grpc) addr rc w clean) (get_raft_conn-Gets addr rc w)
        (get_raft_conn-calls grpc addr rc w)
