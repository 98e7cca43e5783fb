-- ===== src/Transport/Client/Clean.antt =====
-- The connections of a raft client: those in the map are exactly the ones that are not cancelled.
use talent_challenge.Prelude.{
  ℕ, suc, ◌<◌, ◌≤◌, ◌≡◌, ◌≢◌, refl, sym, ap, ◌∙◌, ◌⊎◌, inl, inr, false, Bool-cases, none, some,
  String, arith, ◌==◌, ==_iff,
}
use talent_challenge.Prelude.Texts.{text_eq, text_eq_iff, text_eq_refl}
use talent_challenge.Transport.Client.{
  RaftConn, RaftClient, new_raft_client, stop, remove_conn, put_conn,
}

pub record IsClean (rc : RaftClient) : Type 0 where
  pub live :
      (a : String) (c : RaftConn)
      → rc.conns a ≡ some c
      → (c.addr ≡ a) × (c.context < rc.made) × (rc.cancelled c.context ≡ false)
  pub held :
      (n : ℕ)
      → n < rc.made
      → rc.cancelled n ≡ false
      → (a : String) × (c : RaftConn) × (rc.conns a ≡ some c) × (c.context ≡ n)
  pub fresh : (n : ℕ) → rc.made ≤ n → rc.cancelled n ≡ false
  pub apart :
      (a b : String) (c d : RaftConn)
      → rc.conns a ≡ some c
      → rc.conns b ≡ some d
      → c.context ≡ d.context
      → a ≡ b

pub IsClean-new_raft_client : IsClean new_raft_client
unfolding new_raft_client
IsClean-new_raft_client = record {
  live = λ a c e. cc;
  held = λ n lt e. absurd (omega arith);
  fresh = λ n le. refl;
  apart = λ a b c d e f g. cc;
}

-- A context that is made and cancelled at once
pub IsClean-dead :
    (addr : String) (rc : RaftClient)
    → IsClean rc
    → IsClean (stop (record { addr = addr; context = rc.made }) (record rc { made = suc rc.made }))
unfolding stop
IsClean-dead addr rc clean = record {
  live = λ a c e.
      let (owner, made, alive) = clean.live a c e in (owner, omega arith, ground (arith, alive));
  held = λ n lt e. ground (arith, clean.held n);
  fresh = λ n le. ground (arith, clean.fresh n (omega arith));
  apart = clean.apart;
}

-- A lookup in the map behind `put_conn` or `remove_conn`
conns-put :
    (addr a : String) (c d : RaftConn) (rc : RaftClient)
    → (put_conn addr c rc).conns a ≡ some d
    → ((a ≡ addr) × (d ≡ c)) ⊎ (rc.conns a ≡ some d)
unfolding put_conn
conns-put addr a c d rc e = elim (Bool-cases (text_eq a addr)) [
  | inl same ↦ inl ((text_eq_iff a addr).0 same, ground (arith, same, e))
  | inr other ↦ inr (ground (arith, other, e))
]

conns-remove :
    (addr a : String) (d : RaftConn) (rc : RaftClient)
    → (remove_conn addr rc).conns a ≡ some d
    → (a ≢ addr) × (rc.conns a ≡ some d)
unfolding remove_conn
conns-remove addr a d rc e = elim (Bool-cases (text_eq a addr)) [
  | inl same ↦ absurd (ground (arith, same, e))
  | inr other ↦
      (λ same. ground (arith, other, (text_eq_iff a addr).1 same), ground (arith, other, e))
]

conns-put_other :
    (addr a : String) (c d : RaftConn) (rc : RaftClient)
    → rc.conns addr ≡ none
    → rc.conns a ≡ some d
    → (put_conn addr c rc).conns a ≡ some d
unfolding put_conn
conns-put_other addr a c d rc free e = elim (Bool-cases (text_eq a addr)) [
  | inl same ↦ absurd (cc ((text_eq_iff a addr).0 same, free, e))
  | inr other ↦ rw other e
]

conns-remove_other :
    (addr a : String) (d : RaftConn) (rc : RaftClient)
    → a ≢ addr
    → rc.conns a ≡ some d
    → (remove_conn addr rc).conns a ≡ some d
unfolding remove_conn
conns-remove_other addr a d rc other e = elim (Bool-cases (text_eq a addr)) [
  | inl same ↦ absurd (other ((text_eq_iff a addr).0 same))
  | inr differs ↦ rw differs e
]

-- A new connection is put where there is none.
pub IsClean-put :
    (addr : String) (rc : RaftClient)
    → IsClean rc
    → rc.conns addr ≡ none
    → IsClean (
        put_conn addr
          (record { addr = addr; context = rc.made })
          (record rc { made = suc rc.made }))
unfolding put_conn
IsClean-put addr rc clean free =
    let c : RaftConn = record { addr = addr; context = rc.made } in
    let counted : RaftClient = record rc { made = suc rc.made } in
    record {
      live = λ a d e. elim (conns-put addr a c d counted e) [
        | inl (at, is) ↦ (
          ap (λ x. x.addr) is ∙ sym at,
          omega (arith, ap (λ x. x.context) is),
          ap rc.cancelled (ap (λ x. x.context) is) ∙ clean.fresh rc.made (omega arith),
        )
        | inr before ↦
            let (owner, made, alive) = clean.live a d before in (owner, omega arith, alive)
      ];
      held = λ n lt e. elim (Bool-cases (n == rc.made)) [
        | inl new ↦ (addr, c, rw (text_eq_refl addr) refl, sym ((==_iff n rc.made).0 new))
        | inr old ↦
            let (a, d, there, is) = clean.held n (ground (arith, old, lt)) e in
            (a, d, conns-put_other addr a c d counted free there, is)
      ];
      fresh = λ n le. clean.fresh n (omega arith);
      apart = λ a b d f ed ef same. elim (conns-put addr a c d counted ed) [
        | inl (at, is) ↦ elim (conns-put addr b c f counted ef) [
          | inl (at', is') ↦ at ∙ sym at'
          | inr there ↦ absurd (omega (arith, (clean.live b f there).1, ap (λ x. x.context) is))
        ]
        | inr here ↦ elim (conns-put addr b c f counted ef) [
          | inl (at', is') ↦
              absurd (omega (arith, (clean.live a d here).1, ap (λ x. x.context) is'))
          | inr there ↦ clean.apart a b d f here there same
        ]
      ];
    }

-- The connection of an address is stopped and leaves the map.
pub IsClean-drop :
    (addr : String) (c : RaftConn) (rc : RaftClient)
    → IsClean rc
    → rc.conns addr ≡ some c
    → IsClean (remove_conn addr (stop c rc))
unfolding stop remove_conn
IsClean-drop addr c rc clean there = record {
  live = λ a d e.
      let (other, before) = conns-remove addr a d (stop c rc) e in
      let (owner, made, alive) = clean.live a d before in
      (
        owner,
        made,
        elim (Bool-cases (d.context == c.context)) [
          | inl same ↦
              absurd
                (other (clean.apart a addr d c before there ((==_iff d.context c.context).0 same)))
          | inr differs ↦ rw differs alive
        ],
      );
  held = λ n lt e. elim (Bool-cases (n == c.context)) [
    | inl same ↦ absurd (ground (arith, same, e))
    | inr differs ↦
        let (a, d, at, is) = clean.held n lt (ground (arith, differs, e)) in
        let apart_from : a ≢ addr = λ here.
          let same : d ≡ c = cc (here, at, there) in
          ground (arith, differs, is, ap (λ x. x.context) same) in
        (a, d, conns-remove_other addr a d (stop c rc) apart_from at, is)
  ];
  fresh = λ n le.
      let (owner, made, alive) = clean.live addr c there in
      ground (arith, made, le, clean.fresh n le);
  apart = λ a b d f ed ef same.
      clean.apart a b d f (conns-remove addr a d (stop c rc) ed).1
        (conns-remove addr b f (stop c rc) ef).1 same;
}

abbrev pub next_conn : String → RaftClient → RaftConn
next_conn addr rc = record { addr = addr; context = rc.made }

abbrev pub counted : RaftClient → RaftClient
counted rc = record rc { made = suc rc.made }
