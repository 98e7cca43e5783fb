-- ===== src/Transport/Client/Sends.antt =====
-- raft_conn/raft_client.go: what `Send` comes to, over a client whose connections are clean.
use talent_challenge.Prelude.{
  ℕ, ◌≡◌, refl, sym, ap, subst, ◌∙◌, ◌⊎◌, inl, inr, Option, none, some, Option-cases, String,
}
use talent_challenge.Prelude.Outcome.{Try, failed, done}
use talent_challenge.Prelude.Texts.{text_eq_refl}
use talent_challenge.Transport.Client.{
  RaftMsgReq, RaftConn, Grpc, RaftClient, stop, remove_conn, put_conn, stop_old, open_conn,
  new_raft_conn, use_new, install, get_raft_conn, send_on, send_first, send,
}
use talent_challenge.Transport.Client.Clean.{
  IsClean, IsClean-dead, IsClean-put, IsClean-drop, next_conn, counted,
}

module _ {W : Type 0} (grpc : Grpc W) where
  -- A dial that fails, a stream that fails, or a connection
  pub new_raft_conn-cases :
      (addr : String) (rc : RaftClient) (w : W)
      → ((e : ℕ) × (w' : W) × (new_raft_conn grpc addr rc w ≡ (failed e, rc, w')))
        ⊎ ((e : ℕ) × (w' : W) × (new_raft_conn grpc addr rc w
              ≡ (failed e, stop (next_conn addr rc) (counted rc), w')))
        ⊎ ((w' : W) × (new_raft_conn grpc addr rc w ≡ (done (next_conn addr rc), counted rc, w')))
  unfolding new_raft_conn open_conn
  new_raft_conn-cases addr rc w = elim (Option-cases (grpc.dial addr w).0) [
    | inr (e, refused) ↦ inl (e, (grpc.dial addr w).1, rw (new_raft_conn, refused) refl)
    | inl dialled ↦
        let opened = grpc.open_stream (next_conn addr rc) (grpc.dial addr w).1 in
        elim (Option-cases opened.0) [
          | inr (e, refused) ↦
              inr (inl (e, opened.1, rw (new_raft_conn, open_conn, dialled, refused) refl))
          | inl streams ↦ inr (inr (opened.1, rw (new_raft_conn, open_conn, dialled, streams) refl))
        ]
  ]

  -- What `GetRaftConn` comes to: the map holds the connection that it returns.
  abbrev pub Got : String → Try ℕ RaftConn × RaftClient × W → Type 0
  Got addr r = IsClean r.1 × ((c : RaftConn) → r.0 ≡ done c → r.1.conns addr ≡ some c)

  pub get_raft_conn-Got :
      (addr : String) (rc : RaftClient) (w : W)
      → IsClean rc
      → Got addr (get_raft_conn grpc addr rc w)
  unfolding get_raft_conn use_new install put_conn stop_old
  get_raft_conn-Got addr rc w clean = elim (Option-cases (rc.conns addr)) [
    | inr (c, there) ↦
        let found : get_raft_conn grpc addr rc w ≡ (done c, rc, w) =
          rw (get_raft_conn, there) refl in
        subst (Got addr) (sym found) (clean, λ d same. there ∙ cc)
    | inl free ↦ elim (new_raft_conn-cases addr rc w) [
      | inl (e, w', failing) ↦
          let got : get_raft_conn grpc addr rc w ≡ (failed e, rc, w') =
            rw (get_raft_conn, free) (ap (use_new grpc addr) failing) in
          subst (Got addr) (sym got) (clean, λ d same. absurd cc)
      | inr (inl (e, w', failing)) ↦
          let dead = stop (next_conn addr rc) (counted rc) in
          let got : get_raft_conn grpc addr rc w ≡ (failed e, dead, w') =
            rw (get_raft_conn, free) (ap (use_new grpc addr) failing) in
          subst (Got addr) (sym got) (IsClean-dead addr rc clean, λ d same. absurd cc)
      | inr (inr (w', opened)) ↦
          let c = next_conn addr rc in
          let put = put_conn addr c (counted rc) in
          let got : get_raft_conn grpc addr rc w ≡ (done c, put, w') =
            rw (get_raft_conn, free) (ap (use_new grpc addr) opened ∙ rw free refl) in
          subst (Got addr) (sym got)
            (IsClean-put addr rc clean free, λ d same. rw (text_eq_refl addr) cc)
    ]
  ]

  -- What a send comes to: no error means that the connection in the map has just taken the message.
  abbrev pub Sent : String → RaftMsgReq → Option ℕ × RaftClient × W → Type 0
  Sent addr msg r =
      IsClean r.1
      × (r.0 ≡ none
          → (c : RaftConn) × (w : W) × (r.1.conns addr ≡ some c)
            × (grpc.stream_send c msg w ≡ (none, r.2)))

  send_on-Sent :
      (addr : String) (msg : RaftMsgReq) (r : Try ℕ RaftConn × RaftClient × W)
      → Got addr r
      → Sent addr msg (send_on grpc msg r)
  unfolding send_on
  send_on-Sent addr msg (failed e, rc, w) got = (got.0, λ same. absurd cc)
  send_on-Sent addr msg (done c, rc, w) got =
      (got.0, λ same. (c, w, got.1 c refl, ap (λ o. (o, (grpc.stream_send c msg w).1)) same))

  send_first-Sent :
      (addr : String) (msg : RaftMsgReq) (r : Try ℕ RaftConn × RaftClient × W)
      → Got addr r
      → Sent addr msg (send_first grpc addr msg r)
  unfolding send_first
  send_first-Sent addr msg (failed e, rc, w) got = (got.0, λ same. absurd cc)
  send_first-Sent addr msg (done c, rc, w) got = elim (Option-cases (grpc.stream_send c msg w).0) [
    | inl taken ↦
        rw (send_first, taken)
          (got.0, λ same. (c, w, got.1 c refl, ap (λ o. (o, (grpc.stream_send c msg w).1)) taken))
    | inr (e, refused) ↦
        rw (send_first, refused)
          (send_on-Sent addr msg
            (get_raft_conn grpc addr (remove_conn addr (stop c rc)) (grpc.stream_send c msg w).1)
            (get_raft_conn-Got addr (remove_conn addr (stop c rc)) (grpc.stream_send c msg w).1
              (IsClean-drop addr c rc got.0 (got.1 c refl))))
  ]

  -- In a raft client the connections in the map, one per address and under their own, are exactly
  -- those that were made and are not cancelled. `Send`, whatever dials, streams and sends come to,
  -- keeps it so: no connection leaks, none in the map is dead. Where it returns no error, the
  -- connection in the map has just taken the message.
  pub send-IsClean :
      (addr : String) (msg : RaftMsgReq) (rc : RaftClient) (w : W)
      → IsClean rc
      → Sent addr msg (send grpc addr msg rc w)
  unfolding send
  send-IsClean addr msg rc w clean =
      send_first-Sent addr msg (get_raft_conn grpc addr rc w) (get_raft_conn-Got addr rc w clean)
