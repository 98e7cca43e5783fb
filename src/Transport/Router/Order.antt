-- ===== src/Transport/Router/Order.antt =====
-- From `sendRaftMsgs` of one peer to `Step` of another: what is handed over, and in which order.
use talent_challenge.Prelude.{ℕ, ◌≡◌, true, some, List, [], ◌∷◌, ◌++◌, map, String, ◌==◌}
use talent_challenge.Transport.Client.{Message, Grpc}
use talent_challenge.Transport.Client.Clean.{IsClean}
use talent_challenge.Transport.Client.Delivers.{Watched, on_conn}
use talent_challenge.Transport.Router.{peer_addr, Router, peer_msg, handle_raft_msgs}

-- The first list is the second one with some elements left out.
pub data Sublist {A : Type 0} : List A → List A → Type 0 where
  stop : Sublist [] []
  skip : (y : A) {xs ys : List A} → Sublist xs ys → Sublist xs (y ∷ ys)
  keep : (x : A) {xs ys : List A} → Sublist xs ys → Sublist (x ∷ xs) (x ∷ ys)

abbrev IsFor : ℕ → Message → Type 0
IsFor id msg = (msg.to == id) ≡ true

module _ {W : Type 0} (grpc : Grpc W) (id : ℕ) (addr : String) (known : peer_addr id ≡ some addr)
    (n : ℕ) where
  -- What one message adds to what goes over the connection `n` to the peer
  abbrev Adds : Message → Watched W → Router × Watched W → List Message → Type 0
  Adds msg w r taken =
      IsClean r.0.raft_client
      × (on_conn n addr r.1.calls ≡ on_conn n addr w.calls ++ map peer_msg taken)
      × Sublist taken (handle_raft_msgs id (msg ∷ []))
