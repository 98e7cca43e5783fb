-- ===== src/Transport/Router/Hands.antt =====
-- That `sendRaftMsgs` hands all messages for a peer to gRPC, unless gRPC returns an error meanwhile.
use talent_challenge.Prelude.{
  ℕ, ◌<◌, ◌⊎◌, ◌≡◌, refl, sym, ap, subst, ◌∙◌, inl, inr, true, Bool-cases, Option, none, some,
  Option-cases, List, [], ◌∷◌, ◌++◌, append-nil, append_assoc, map, String, arith, ◌==◌, ==_iff,
  if◌then◌else◌,
}
use talent_challenge.Prelude.Texts.{text_eq, text_eq_iff}
use talent_challenge.Transport.Client.{Message, RaftMsgReq, Grpc, send}
use talent_challenge.Transport.Client.Clean.{IsClean}
use talent_challenge.Transport.Client.Sends.{send-IsClean}
use talent_challenge.Transport.Client.Delivers.{Watched, watched}
use talent_challenge.Transport.Client.Hands.{at_addr, send-Hands}
use talent_challenge.Transport.Router.{
  peer_addr, Router, peer_msg, send_raft_msg, send_raft_msgs, handle_raft_msgs,
}

-- The id of an address
id_at : Option String → ℕ
id_at none = 0
id_at (some a) =
    if text_eq a "127.0.0.1:6060" then 1 else if text_eq a "127.0.0.1:6061" then 2 else 3

id_at-peer_addr : (i : ℕ) (a : String) → peer_addr i ≡ some a → id_at (peer_addr i) ≡ i
unfolding peer_addr id_at
id_at-peer_addr i a h = elim (Bool-cases (i == 1)) [
  | inl one ↦ rw one (sym ((==_iff i 1).0 one))
  | inr not_one ↦ elim (Bool-cases (i == 2)) [
    | inl two ↦ rw (not_one, two) (sym ((==_iff i 2).0 two))
    | inr not_two ↦ elim (Bool-cases (i == 3)) [
      | inl three ↦ rw (not_one, not_two, three) (sym ((==_iff i 3).0 three))
      | inr not_three ↦ absurd (ground (arith, not_one, not_two, not_three, h))
    ]
  ]
]

pub peer_addr-injective :
    (i j : ℕ) (a : String) → peer_addr i ≡ some a → peer_addr j ≡ some a → i ≡ j
peer_addr-injective i j a hi hj =
    sym (id_at-peer_addr i a hi) ∙ ap id_at (hi ∙ sym hj) ∙ id_at-peer_addr j a hj

-- The requests of the messages for a peer
requests : ℕ → List Message → List RaftMsgReq
requests id msgs = map peer_msg (handle_raft_msgs id msgs)

requests-cons :
    (id : ℕ) (msg : Message) (msgs : List Message)
    → requests id (msg ∷ []) ++ requests id msgs ≡ requests id (msg ∷ msgs)
unfolding requests handle_raft_msgs
requests-cons id msg msgs = elim (Bool-cases (msg.to == id)) [
  | inl own ↦ rw own refl
  | inr other ↦ rw other refl
]

module _ {W : Type 0} (grpc : Grpc W) (id : ℕ) (addr : String)
    (known : peer_addr id ≡ some addr) where
  -- An error more, or these requests more on connections to the peer
  abbrev More : List RaftMsgReq → Watched W → Watched W → Type 0
  More reqs w after =
      (w.errors < after.errors)
      ⊎ ((after.errors ≡ w.errors) × (at_addr addr after.calls ≡ at_addr addr w.calls ++ reqs))

  More-append :
      (xs ys : List RaftMsgReq) (w mid after : Watched W)
      → More xs w mid
      → More ys mid after
      → More (xs ++ ys) w after
  More-append xs ys w mid after (inl more) (inl more') = inl (omega (arith, more, more'))
  More-append xs ys w mid after (inl more) (inr (still, grew)) = inl (omega (arith, more, still))
  More-append xs ys w mid after (inr (still, grew)) (inl more) = inl (omega (arith, more, still))
  More-append xs ys w mid after (inr (still, grew)) (inr (still', grew')) = inr (
    still' ∙ still,
    grew' ∙ ap (λ before. before ++ ys) grew ∙ append_assoc (at_addr addr w.calls) xs ys,
  )

  -- The address decides whom a request is for.
  requests-at :
      (msg : Message) (to_addr : String)
      → peer_addr msg.to ≡ some to_addr
      → (if text_eq addr to_addr then peer_msg msg ∷ [] else []) ≡ requests id (msg ∷ [])
  unfolding requests handle_raft_msgs
  requests-at msg to_addr to_known = elim (Bool-cases (text_eq addr to_addr)) [
    | inl same ↦
        let at : to_addr ≡ addr = sym ((text_eq_iff addr to_addr).0 same) in
        let own : (msg.to == id) ≡ true =
          (==_iff msg.to id).1 (peer_addr-injective msg.to id addr (to_known ∙ ap some at) known) in
        rw (same, own) refl
    | inr other ↦ elim (Bool-cases (msg.to == id)) [
      | inl own ↦
          let at : some addr ≡ some to_addr =
            sym known ∙ sym (ap peer_addr ((==_iff msg.to id).0 own)) ∙ to_known in
          absurd (ground (arith, other, (text_eq_iff addr to_addr).1, at))
      | inr foreign ↦ rw (other, foreign) refl
    ]
  ]

  requests-unknown : (msg : Message) → peer_addr msg.to ≡ none → [] ≡ requests id (msg ∷ [])
  unfolding requests handle_raft_msgs
  requests-unknown msg unknown = elim (Bool-cases (msg.to == id)) [
    | inl own ↦
        let at : none ≡ some addr = sym unknown ∙ ap peer_addr ((==_iff msg.to id).0 own) ∙ known in
        absurd cc
    | inr foreign ↦ rw foreign refl
  ]

  -- The client stays clean, and the requests are handed over.
  abbrev Hands : List RaftMsgReq → Watched W → Router × Watched W → Type 0
  Hands reqs w r = IsClean r.0.raft_client × More reqs w r.1

  send_raft_msg-Hands :
      (msg : Message) (r : Router) (w : Watched W)
      → IsClean r.raft_client
      → Hands (requests id (msg ∷ [])) w (send_raft_msg (watched grpc) msg r w)
  unfolding send_raft_msg
  send_raft_msg-Hands msg r w clean = elim (Option-cases (peer_addr msg.to)) [
    | inl unknown ↦
        let passed : send_raft_msg (watched grpc) msg r w ≡ (r, w) =
          rw (send_raft_msg, unknown) refl in
        subst (λ after. Hands (requests id (msg ∷ [])) w after) (sym passed)
          (
            clean,
            subst (λ reqs. More reqs w w) (requests-unknown msg unknown)
                (inr (refl, sym (append-nil (at_addr addr w.calls)))),
          )
    | inr (to_addr, to_known) ↦
        let sent = send (watched grpc) to_addr (peer_msg msg) r.raft_client w in
        let goes : send_raft_msg (watched grpc) msg r w
            ≡ (record r { raft_client = sent.1 }, sent.2) =
          rw (send_raft_msg, to_known) refl in
        subst (λ after. Hands (requests id (msg ∷ [])) w after) (sym goes)
          (
            (send-IsClean (watched grpc) to_addr (peer_msg msg) r.raft_client w clean).0,
            subst (λ reqs. More reqs w sent.2) (requests-at msg to_addr to_known)
                (send-Hands grpc to_addr (peer_msg msg) r.raft_client w addr clean),
          )
  ]

  pub send_raft_msgs-hands :
      (msgs : List Message) (r : Router) (w : Watched W)
      → IsClean r.raft_client
      → let after = (send_raft_msgs (watched grpc) msgs r w).1 in
        (w.errors < after.errors)
        ⊎ ((after.errors ≡ w.errors)
            × (at_addr addr after.calls
                ≡ at_addr addr w.calls ++ map peer_msg (handle_raft_msgs id msgs)))
  unfolding send_raft_msgs requests handle_raft_msgs
  send_raft_msgs-hands [] r w clean = inr (refl, sym (append-nil (at_addr addr w.calls)))
  send_raft_msgs-hands (msg ∷ msgs) r w clean =
      let sent = send_raft_msg (watched grpc) msg r w in
      let after = (send_raft_msgs (watched grpc) msgs sent.0 sent.1).1 in
      let (clean', first) = send_raft_msg-Hands msg r w clean in
      let rest = send_raft_msgs-hands msgs sent.0 sent.1 clean' in
      subst (λ reqs. More reqs w after) (requests-cons id msg msgs)
        (More-append (requests id (msg ∷ [])) (requests id msgs) w sent.1 after first rest)
