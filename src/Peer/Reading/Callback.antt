-- ===== src/Peer/Reading/Callback.antt =====
-- internal/callback.go: the callback of a read, shared by the caller, who waits, and the goroutine
-- that answers. Its channel has room for one signal.
use talent_challenge.Prelude.{
  ◌≡◌, refl, ◌⊎◌, inl, inr, arith, Bool, Bool-cases, true, false, Option, none, some, if◌then◌else◌,
}
use talent_challenge.Prelude.Outcome.{Result, err, lost_read_response}
use talent_challenge.Prelude.Bytes.{Bytes}
use talent_challenge.Peer.Commands.{GetResponse}
use talent_challenge.Store.Raft.{get}

pub record Callback : Type 0 where
  pub resp : Option GetResponse
  pub signalled : Bool

unfoldable pub new_callback : Callback
new_callback = record { resp = none; signalled = false }

abbrev or_else : Option GetResponse → Option GetResponse → Option GetResponse
or_else none old = old
or_else (some resp) old = some resp

-- `Done` up to its send
unfoldable pub set_resp : Option GetResponse → Callback → Callback
set_resp resp cb = record cb { resp = or_else resp cb.resp }

-- The send; none while the channel is full.
unfoldable pub signal_done : Callback → Option Callback
signal_done cb = if cb.signalled then none else some (record cb { signalled = true })

-- `WaitResp`; none while it waits.
unfoldable pub wait_resp : Callback → Option (Option GetResponse × Callback)
wait_resp cb = if cb.signalled then some (cb.resp, record cb { signalled = false }) else none

-- `WaitRespWithTimeout`. Where the time is over and a signal is there as well, Go takes either case.
unfoldable pub wait_resp_with_timeout :
    (over takes_signal : Bool) → Callback → Option (Option GetResponse × Callback)
unfolding wait_resp
wait_resp_with_timeout false takes_signal cb = wait_resp cb
wait_resp_with_timeout true true cb =
    if cb.signalled then some (cb.resp, record cb { signalled = false }) else some (cb.resp, cb)
wait_resp_with_timeout true false cb = some (cb.resp, cb)

-- The steps of the answering goroutine
pub data Answering (resp : GetResponse) : Callback → Callback → Type 0 where
  answers : (cb : Callback) → Answering resp cb (set_resp (some resp) cb)
  signals :
      (cb cb' : Callback) → cb.resp ≡ some resp → signal_done cb ≡ some cb' → Answering resp cb cb'

-- A callback that the goroutine has brought some way
pub data Answered (resp : GetResponse) : Callback → Type 0 where
  start : Answered resp new_callback
  next : (cb cb' : Callback) → Answered resp cb → Answering resp cb cb' → Answered resp cb'

-- `Get` of the raft store, once the wait is over
unfoldable pub get_waited : Option (Option GetResponse × Callback) → Option (Result Bytes)
unfolding get
get_waited none = none
get_waited (some (resp, cb)) = some (get resp)

resp-Answered :
    (resp : GetResponse) (cb : Callback)
    → Answered resp cb
    → ((cb.resp ≡ none) × (cb.signalled ≡ false)) ⊎ (cb.resp ≡ some resp)
unfolding new_callback set_resp signal_done
resp-Answered resp cb start = inl (refl, refl)
resp-Answered resp last (next cb cb' before (answers mid)) = inr refl
resp-Answered resp last (next cb cb' before (signals mid after set sent)) =
    inr (ground (arith, set, sent))

-- A wait that is over with its time ends with the response that the callback has.
wait_resp_with_timeout-over :
    (takes_signal : Bool) (cb : Callback)
    → (cb' : Callback) × (wait_resp_with_timeout true takes_signal cb ≡ some (cb.resp, cb'))
unfolding wait_resp_with_timeout
wait_resp_with_timeout-over true cb = elim (Bool-cases cb.signalled) [
  | inl there ↦ (record cb { signalled = false }, rw there refl)
  | inr quiet ↦ (cb, rw quiet refl)
]
wait_resp_with_timeout-over false cb = (cb, refl)

wait_resp_with_timeout-signalled :
    (over : Bool) (cb : Callback)
    → cb.signalled ≡ true
    → (cb' : Callback) × (wait_resp_with_timeout over true cb ≡ some (cb.resp, cb'))
unfolding wait_resp_with_timeout wait_resp
wait_resp_with_timeout-signalled true cb there = (record cb { signalled = false }, rw there refl)
wait_resp_with_timeout-signalled false cb there = (record cb { signalled = false }, rw there refl)

-- However far the goroutine that answers is: once the second is over, `Get` returns, with the result
-- of the response where the goroutine has set it, else with ErrLostReadResponse, whether the wait
-- takes a signal that is there or not. Where a signal is there and is taken, `Get` returns the result
-- of the response, the second over or not.
pub get_waited-Answered :
    (resp : GetResponse) (takes_signal over : Bool) (cb : Callback)
    → Answered resp cb
    → (((cb.resp ≡ some resp)
          × (get_waited (wait_resp_with_timeout true takes_signal cb) ≡ some (get (some resp))))
        ⊎ ((cb.resp ≡ none)
            × (get_waited (wait_resp_with_timeout true takes_signal cb)
                ≡ some (err lost_read_response))))
      × ((cb.signalled ≡ false)
          ⊎ (get_waited (wait_resp_with_timeout over true cb) ≡ some (get (some resp))))
unfolding get_waited get
get_waited-Answered resp takes_signal over cb answered =
    let (cb', ended) = wait_resp_with_timeout-over takes_signal cb in
    elim (resp-Answered resp cb answered) [
      | inl (nothing, quiet) ↦ (inr (nothing, rw (ended, nothing) refl), inl quiet)
      | inr set ↦ (
        inl (set, rw (ended, set) refl),
        elim (Bool-cases cb.signalled) [
          | inr quiet ↦ inl quiet
          | inl there ↦
              let (cb'', taken) = wait_resp_with_timeout-signalled over cb there in
              inr (rw (taken, set) refl)
        ],
      )
    ]
