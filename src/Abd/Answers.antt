-- ===== src/Abd/Answers.antt =====
-- The answers of abd/replica.go to its requests.
use paxi.Common.{
  sym, ==→eq, ℕ, suc, ◌+◌, ◌≤◌, ◌≡◌, ap, ◌∙◌, false, Option, none, some, List, [], ◌∷◌, ◌==◌,
  if◌then◌else◌, arith, inl, inr, Bool-cases, Option-cases, length, subst,
}
use paxi.Id.{NodeId}
use paxi.Config.{Config}
use paxi.Abd.{
  Phase, get_phase, set_phase, done, Entry, Replica, GetReply, SetReply, Message, on_request,
  on_get, on_get_reply, on_set, on_set_reply, Output, take_newer, begin_set, collect_get,
  handle_get_reply, collect_set, handle_set_reply, handle_request, handle_get, deliver,
}
use paxi.Abd.GetPhase.{returned_pair, collect_get-log, handle_set-log}

-- How many answers a request in a phase still gets.
abbrev pub left : Phase → ℕ
left get_phase = 1
left set_phase = 1
left done = 0

abbrev left_in : Option Entry → ℕ
left_in none = 0
left_in (some e) = left e.state

-- What the handler of a reply to the set of request `c` sends, which is answers to the client.
abbrev pub sent_for : ℕ → Message → List Output → ℕ
sent_for c (on_set_reply m) out = if m.cid == c then length out else 0
sent_for c (on_request m) out = 0
sent_for c (on_get m) out = 0
sent_for c (on_get_reply m) out = 0
sent_for c (on_set m) out = 0

module _ (config : Config) (own : NodeId) (c : ℕ) where
  -- The answers to request `c` over a sequence of messages.
  unfoldable pub answers : Replica → List Message → ℕ
  answers r [] = 0
  answers r (x ∷ xs) = elim (deliver config own r x) [
    | none ↦ 0
    | some (r', out) ↦ sent_for c x out + answers r' xs
  ]

  collect_get-left :
      (r : Replica) (e : Entry) (m : GetReply)
      → left (collect_get config own r e m).1.state ≤ left e.state
  unfolding collect_get take_newer begin_set
  collect_get-left r e m = ground arith

  collect_set-left :
      (e : Entry) (m : SetReply)
      → length (collect_set config own e m).1 + left (collect_set config own e m).0.state
        ≤ left e.state
  unfolding collect_set
  collect_set-left e m = ground arith

  -- A message changes the request's share of the log, in the order of the handlers.
  deliver-left :
      (r r' : Replica) (x : Message) (out : List Output)
      → c ≤ r.cid
      → deliver config own r x ≡ some (r', out)
      → (c ≤ r'.cid) × (sent_for c x out + left_in (r'.log c) ≤ left_in (r.log c))
  unfolding deliver handle_request handle_get
  deliver-left r r' (on_request m) out known ran =
      let fresh : (suc r.cid == c) ≡ false = ground (arith, known) in
      subst (λ t. (c ≤ t.0.cid) × (0 + left_in (t.0.log c) ≤ left_in (r.log c))) (returned_pair ran)
        (omega (arith, known), rw fresh (omega arith))
  deliver-left r r' (on_get m) out known ran =
      subst (λ t. (c ≤ t.0.cid) × (0 + left_in (t.0.log c) ≤ left_in (r.log c))) (returned_pair ran)
        (known, omega arith)
  deliver-left r r' (on_set m) out known ran =
      let (log, cid) = handle_set-log config own r m in
      subst (λ t. (c ≤ t.0.cid) × (0 + left_in (t.0.log c) ≤ left_in (r.log c))) (returned_pair ran)
        (omega (arith, cid, known), omega (arith, ap (λ l. left_in (l c)) log))
  deliver-left r r' (on_get_reply m) out known ran = elim (Option-cases (r.log m.cid)) [
    | inl missing ↦ let fails = rw (handle_get_reply, missing) at ran in absurd (ground arith)
    | inr (e, has) ↦
        let (log, cid) = collect_get-log config own r e m in
        let less = collect_get-left r e m in
        subst (λ t. (c ≤ t.0.cid) × (0 + left_in (t.0.log c) ≤ left_in (r.log c)))
          (returned_pair (rw (handle_get_reply, has) at ran))
          (
            omega (arith, cid, known),
            elim (Bool-cases (m.cid == c)) [
              | inl same ↦
                  let here : left_in (r.log c) ≡ left e.state =
                    ap left_in (ap r.log (sym (==→eq m.cid c same)) ∙ has) in
                  rw same (omega (arith, less, here))
              | inr apart ↦ rw apart (omega (arith, ap (λ l. left_in (l c)) log))
            ],
          )
  ]
  deliver-left r r' (on_set_reply m) out known ran = elim (Option-cases (r.log m.cid)) [
    | inl missing ↦ let fails = rw (handle_set_reply, missing) at ran in absurd (ground arith)
    | inr (e, has) ↦
        let less = collect_set-left e m in
        subst
          (λ t.
            (c ≤ t.0.cid)
            × (sent_for c (on_set_reply m) t.1 + left_in (t.0.log c) ≤ left_in (r.log c)))
          (returned_pair (rw (handle_set_reply, has) at ran))
          (
            known,
            elim (Bool-cases (m.cid == c)) [
              | inl same ↦
                  let here : left_in (r.log c) ≡ left e.state =
                    ap left_in (ap r.log (sym (==→eq m.cid c same)) ∙ has) in
                  rw same (omega (arith, less, here))
              | inr apart ↦ rw apart (omega arith)
            ],
          )
  ]

  answers-left : (r : Replica) (xs : List Message) → c ≤ r.cid → answers r xs ≤ left_in (r.log c)
  unfolding answers
  answers-left r [] known = omega arith
  answers-left r (x ∷ xs) known = elim (Option-cases (deliver config own r x)) [
    | inl fails ↦ rw (answers, fails) (omega arith)
    | inr ((r', out), goes) ↦
        let (known', less) = deliver-left r r' x out known goes in
        rw (answers, goes) (omega (arith, less, answers-left r' xs known'))
  ]

  left-le : (o : Option Entry) → left_in o ≤ 1
  left-le none = omega arith
  left-le (some e) = ground arith

  -- Over any messages that a replica handles, the set replies to one request bring at most one
  -- answer, and none when it was done before.
  pub answers_once :
      (r : Replica) (xs : List Message)
      → c ≤ r.cid
      → (answers r xs ≤ 1) × ((e : Entry) → r.log c ≡ some e → e.state ≡ done → answers r xs ≡ 0)
  answers_once r xs known = (
    omega (arith, answers-left r xs known, left-le (r.log c)),
    λ e logged finished.
        omega (arith, answers-left r xs known, ap left_in logged, ap left finished),
  )
