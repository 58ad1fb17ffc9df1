-- ===== src/Abd/GetPhase.antt =====
-- The get phase of abd/replica.go: what the version that a request sets is worth.
use paxi.Common.{
  ℕ, ◌+◌, ◌≤◌, ◌≡◌, ◌⊎◌, refl, ap, ◌∙◌, subst, true, false, Option, none, some, List, [], ◌∷◌, ltb,
  if◌then◌else◌, arith, inl, inr, Bool-cases, All,
}
use paxi.Id.{NodeId}
use paxi.Config.{Config}
use paxi.Quorum.{ack, majority}
use paxi.Db.{Command, is_read}
use paxi.Abd.{
  Entry, Replica, GetReply, Set, SetReply, Output, broadcast_get, broadcast_set, send_get_reply,
  send_set_reply, answer, get_state, set_state, store, take_newer, begin_set, collect_get,
  collect_set, handle_set,
}

-- A version that a request writes back is at least `v`, and above it when the request is a write.
abbrev pub Covers : Command → ℕ → Output → Type 0
Covers c v (broadcast_set s) = v + (if is_read c then 0 else 1) ≤ s.version
Covers c v (broadcast_get g) = Unit
Covers c v (send_get_reply to g) = Unit
Covers c v (send_set_reply to s) = Unit
Covers c v (answer request reply) = Unit

module _ (config : Config) (own : NodeId) where
  begin_set_lem :
      (r : Replica) (e : Entry) (m : GetReply)
      → ((begin_set config own r e m).1.request ≡ e.request)
        × (get_state (begin_set config own r e m).1.state ≡ false)
        × All (Covers e.request.command e.version) (begin_set config own r e m).2
  unfolding begin_set
  begin_set_lem r e m = elim (Bool-cases (is_read e.request.command)) [
    | inl reads ↦ rw reads (refl, refl, (ground arith, tt))
    | inr writes ↦ rw writes (refl, refl, (ground arith, tt))
  ]

  take_newer_lem :
      (r : Replica) (e : Entry) (m : GetReply)
      → ((take_newer r e m).1.request ≡ e.request)
        × ((take_newer r e m).1.state ≡ e.state)
        × (e.version ≤ (take_newer r e m).1.version)
        × (m.version ≤ (take_newer r e m).1.version)
  unfolding take_newer
  take_newer_lem r e m = elim (Bool-cases (ltb e.version m.version)) [
    | inl newer ↦ rw newer (refl, refl, ground arith, omega arith)
    | inr older ↦ rw older (refl, refl, omega arith, ground arith)
  ]

  Covers-le :
      (c : Command) (v w : ℕ)
      → v ≤ w
      → (out : List Output) → All (Covers c w) out
      → All (Covers c v) out
  Covers-le c v w le [] h = tt
  Covers-le c v w le (broadcast_set s ∷ out) (h, hs) =
      (omega (arith, le, h), Covers-le c v w le out hs)
  Covers-le c v w le (broadcast_get g ∷ out) (h, hs) = (tt, Covers-le c v w le out hs)
  Covers-le c v w le (send_get_reply to g ∷ out) (h, hs) = (tt, Covers-le c v w le out hs)
  Covers-le c v w le (send_set_reply to g ∷ out) (h, hs) = (tt, Covers-le c v w le out hs)
  Covers-le c v w le (answer q a ∷ out) (h, hs) = (tt, Covers-le c v w le out hs)

  pub collect_get_lem :
      (r : Replica) (e : Entry) (m : GetReply)
      → ((collect_get config own r e m).1.request ≡ e.request)
        × (get_state (collect_get config own r e m).1.state ≡ true
            → (get_state e.state ≡ true)
              × (e.version ≤ (collect_get config own r e m).1.version)
              × (m.version ≤ (collect_get config own r e m).1.version))
        × ((v : ℕ)
            → (get_state e.state ≡ true → v ≤ e.version) ⊎ (v ≤ m.version)
            → All (Covers e.request.command v) (collect_get config own r e m).2)
  unfolding collect_get take_newer
  collect_get_lem r e m = elim (Bool-cases (get_state e.state)) [
    | inl waiting ↦
        let e1 = (take_newer r e m).1 in
        let (same, state, old, new) = take_newer_lem r e m in
        let e2 : Entry = record e1 { get_quorum = ack e1.get_quorum m.id } in
        elim (Bool-cases (majority config e2.get_quorum)) [
          | inl enough ↦
              let (same', closed, covered) = begin_set_lem (take_newer r e m).0 e2 m in
              rw (waiting, enough)
                (
                  same' ∙ same,
                  λ h. absurd (ground arith),
                  λ v h.
                      Covers-le e.request.command v e1.version
                        (elim h [
                          | inl was ↦ omega (arith, was refl, old)
                          | inr is ↦ omega (arith, is, new)
                        ])
                        (begin_set config own (take_newer r e m).0 e2 m).2
                        (subst
                          (λ q.
                            All (Covers q.command e1.version)
                              (begin_set config own (take_newer r e m).0 e2 m).2)
                          same covered),
                )
          | inr few ↦ rw (waiting, few) (same, λ h. (refl, old, new), λ v h. tt)
        ]
    | inr closed ↦ rw closed (refl, (λ h. absurd (ground arith)), λ v h. tt)
  ]

  pub collect_set_lem :
      (e : Entry) (m : SetReply)
      → ((collect_set config own e m).0.request ≡ e.request)
        × ((collect_set config own e m).0.version ≡ e.version)
        × (get_state (collect_set config own e m).0.state ≡ true → get_state e.state ≡ true)
        × ((c : Command) (v : ℕ) → All (Covers c v) (collect_set config own e m).1)
  unfolding collect_set
  collect_set_lem e m = elim (Bool-cases (set_state e.state)) [
    | inl waiting ↦ elim (Bool-cases (majority config (ack e.set_quorum m.id))) [
      | inl enough ↦
          rw (waiting, enough) (refl, refl, (λ h. absurd (ground arith)), λ c v. (tt, tt))
      | inr few ↦ rw (waiting, few) (refl, refl, (λ h. h), λ c v. tt)
    ]
    | inr closed ↦ rw closed (refl, refl, (λ h. h), λ c v. tt)
  ]

  pub handle_set-log :
      (r : Replica) (m : Set)
      → ((handle_set config own r m).0.log ≡ r.log) × ((handle_set config own r m).0.cid ≡ r.cid)
  unfolding handle_set store
  handle_set-log r m = elim (Bool-cases (ltb (r.version m.key) m.version)) [
    | inl newer ↦ rw newer (refl, refl)
    | inr older ↦ rw older (refl, refl)
  ]

  pub collect_get-log :
      (r : Replica) (e : Entry) (m : GetReply)
      → ((collect_get config own r e m).0.log ≡ r.log)
        × ((collect_get config own r e m).0.cid ≡ r.cid)
  unfolding collect_get take_newer begin_set store
  collect_get-log r e m = ground arith

-- The result that a handler returned.
pub returned_pair :
    {a b : Replica × List Output}
    → ◌≡◌ {A = Option (Replica × List Output)} (some a) (some b)
    → a ≡ b
returned_pair {a} h = ap (λ o. elim o [ none ↦ a | some t ↦ t ]) h
