-- ===== src/Api/Client/Calls.antt =====
-- Sequences of calls of a client against a map, the description that leaves out HTTP, JSON, base64
-- and the store.
use talent_challenge.Prelude.{
  ◌≡◌, refl, sym, ap, subst, ◌∙◌, inl, inr, Bool-cases, Option, none, some, List, [], ◌∷◌, All,
  if◌then◌else◌,
}
use talent_challenge.Prelude.Outcome.{Outcome, returns}
use talent_challenge.Prelude.Bytes.{Bytes, bytes_eq}
use talent_challenge.Api.Url.Plain.{IsUnreserved}
use talent_challenge.Api.Model.{Try, done, Json, IsAscii, IsLosslessJson}
use talent_challenge.Api.Store.{Store, IsMap}
use talent_challenge.Api.Client
use talent_challenge.Api.Client.{ClientError, HttpClient, new, Do}
use talent_challenge.Api.Client.Network.{IsDelivered}
use talent_challenge.Api.Client.Refines.{
  IsBytesOption, IsBytes-ascii, get-holds, delete-holds, set-holds,
}

pub data Call : Type 0 where
  set : (key value : Bytes) → Call
  get delete : (key : Bytes) → Call

pub data Answer : Type 0 where
  written : Outcome (Try ClientError (Unit {0})) → Answer
  value : Outcome (Try ClientError (Option Bytes)) → Answer

-- A key in a URL needs no escape, and JSON takes ASCII.
unfoldable pub IsPlain : Call → Type 0
IsPlain (Call.set k v) = IsAscii k × IsAscii v
IsPlain (Call.get k) = IsUnreserved k
IsPlain (Call.delete k) = IsUnreserved k

-- The map after a call, and what the call answers on a map
unfoldable pub after_call : Call → (Bytes → Option Bytes) → Bytes → Option Bytes
after_call (Call.set k v) held j = if bytes_eq k j then some v else held j
after_call (Call.get k) held j = held j
after_call (Call.delete k) held j = if bytes_eq k j then none else held j

unfoldable pub answer_of : Call → (Bytes → Option Bytes) → Answer
answer_of (Call.set k v) held = Answer.written (returns (done tt))
answer_of (Call.get k) held = Answer.value (returns (done (held k)))
answer_of (Call.delete k) held = Answer.written (returns (done tt))

unfoldable pub answers : List Call → (Bytes → Option Bytes) → List Answer
unfolding answer_of after_call
answers [] held = []
answers (call ∷ calls) held = answer_of call held ∷ answers calls (after_call call held)

module _ {W : Type 0} (json : Json) (send : Do W) (c : HttpClient) where
  unfoldable pub call_once : Call → W → Answer × W
  unfolding Client.set Client.get Client.delete
  call_once (Call.set k v) w = let r = Client.set json send c k v w in (Answer.written r.0, r.1)
  call_once (Call.get k) w = let r = Client.get json send c k w in (Answer.value r.0, r.1)
  call_once (Call.delete k) w = let r = Client.delete json send c k w in (Answer.written r.0, r.1)

  unfoldable pub call_all : List Call → W → List Answer × W
  unfolding call_once
  call_all [] w = ([], w)
  call_all (call ∷ calls) w =
      let first = call_once call w in
      let rest = call_all calls first.1 in (first.0 ∷ rest.0, rest.1)

module _ (S : Store) (m : IsMap S) (json : Json) (lossless : IsLosslessJson json) (addr : Bytes)
    (send : Do S.State) (delivered : IsDelivered S json addr send) (c : HttpClient)
    (made : new (addr ∷ []) ≡ returns c) where
  after_call-IsBytesOption :
      (call : Call) (held : Bytes → Option Bytes)
      → IsPlain call
      → ((j : Bytes) → IsBytesOption (held j))
      → (j : Bytes) → IsBytesOption (after_call call held j)
  unfolding after_call IsPlain
  after_call-IsBytesOption (Call.set k v) held plain bytes j = elim (Bool-cases (bytes_eq k j)) [
    | inl e ↦ rw e (IsBytes-ascii v plain.1)
    | inr e ↦ rw e (bytes j)
  ]
  after_call-IsBytesOption (Call.get k) held plain bytes j = bytes j
  after_call-IsBytesOption (Call.delete k) held plain bytes j = elim (Bool-cases (bytes_eq k j)) [
    | inl e ↦ rw e tt
    | inr e ↦ rw e (bytes j)
  ]

  -- One call: its answer, and what the store holds behind it
  call_once-answer_of :
      (call : Call) (w : S.State) (held : Bytes → Option Bytes)
      → IsPlain call
      → ((j : Bytes) → m.holds w j ≡ held j)
      → ((j : Bytes) → IsBytesOption (held j))
      → ((call_once json send c call w).0 ≡ answer_of call held)
        × ((j : Bytes) → m.holds (call_once json send c call w).1 j ≡ after_call call held j)
  unfolding call_once answer_of after_call IsPlain
  call_once-answer_of (Call.set k v) w held plain same bytes =
      let e = set-holds S m json lossless addr send delivered c made k v w plain.0 plain.1 in
      (
        ap (λ r. Answer.written r.0) e,
        λ j.
            ap (λ r. m.holds r.1 j) e
            ∙ (m.set-holds k v w).1 j
            ∙ ap (λ h. if bytes_eq k j then some v else h) (same j),
      )
  call_once-answer_of (Call.get k) w held plain same bytes =
      let e =
        get-holds S m json lossless addr send delivered c made k w plain
          (subst IsBytesOption (sym (same k)) (bytes k)) in
      (
        ap (λ r. Answer.value r.0) e ∙ ap (λ v. Answer.value (returns (done v))) (same k),
        λ j. ap (λ r. m.holds r.1 j) e ∙ (m.get-holds k w).1 j ∙ same j,
      )
  call_once-answer_of (Call.delete k) w held plain same bytes =
      let e = delete-holds S m json lossless addr send delivered c made k w plain in
      (
        ap (λ r. Answer.written r.0) e,
        λ j.
            ap (λ r. m.holds r.1 j) e
            ∙ (m.delete-holds k w).1 j
            ∙ ap (λ h. if bytes_eq k j then none else h) (same j),
      )

  -- The client of one server, whose store never fails and is a map that holds bytes, makes any
  -- sequence of calls: Get and Delete with keys of letters, digits and `-._~`, Set with ASCII. Where
  -- its requests are delivered and JSON is lossless on ASCII, every call returns, none returns an
  -- error, and each Get answers what a map behind the calls before it holds, nil for no value.
  pub call_all-answers :
      (calls : List Call) (w : S.State) (held : Bytes → Option Bytes)
      → All IsPlain calls
      → ((j : Bytes) → m.holds w j ≡ held j)
      → ((j : Bytes) → IsBytesOption (held j))
      → (call_all json send c calls w).0 ≡ answers calls held
  unfolding call_all answers
  call_all-answers [] w held plain same bytes = refl
  call_all-answers (call ∷ calls) w held plain same bytes =
      let (answer, after) = call_once-answer_of call w held plain.0 same bytes in
      ap (λ a. a ∷ (call_all json send c calls (call_once json send c call w).1).0) answer
      ∙ ap (λ rest. answer_of call held ∷ rest)
          (call_all-answers calls (call_once json send c call w).1 (after_call call held) plain.1
            after (after_call-IsBytesOption call held plain.0 bytes))
