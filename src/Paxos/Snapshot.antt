-- ===== src/Paxos/Snapshot.antt =====
-- paxos/paxos.go: the log that HandleP1a sends with its promise.
use paxi.Common.{
  ℕ, zero, suc, ◌+◌, ◌<◌, ◌≤◌, ◌≡◌, ap, ◌∙◌, ◌⊎◌, inl, inr, ◌↔◌, true, false, Option, none, some,
  List, [], ◌∷◌, ◌++◌, ◌-◌, ltb, if◌then◌else◌, iff_trans, refl, arith, Bool-cases, Option-cases,
  In, Distinct,
}
use native.Mathlib.Decide.{dec_lt}
use mathlib.Core.List.{map}
use paxi.Id.{NodeId}
use paxi.Ballot.{ballot_id}
use paxi.Paxos.{P1a, P1b, CommandBallot, promise, Output, send, forward, Entry, Paxos, Setup}
use paxi.Paxos.Phase1.{uncommitted, forward_requests, handle_p1a}
use paxi.Paxos.Update.Iteration.{slots_of}

-- An uncommitted entry of the log at slot `s`, whose command and ballot are `cb`.
abbrev pub Pending : (ℕ → Option Entry) → ℕ → CommandBallot → Type 0
Pending log s cb =
    (e : Entry) × (log s ≡ some e)
    × (e.commit ≡ false)
    × (cb.command ≡ e.command)
    × (cb.ballot ≡ e.ballot)

abbrev pub entry_command : Entry → CommandBallot
entry_command e = record { command = e.command; ballot = e.ballot }

pub uncommitted-none :
    (log : ℕ → Option Entry) (i k : ℕ)
    → log i ≡ none
    → uncommitted log i (suc k) ≡ uncommitted log (suc i) k
unfolding uncommitted
uncommitted-none log i k h = rw (h, uncommitted)

pub uncommitted_skip :
    (log : ℕ → Option Entry) (i k : ℕ) (e : Entry)
    → log i ≡ some e
    → e.commit ≡ true
    → uncommitted log i (suc k) ≡ uncommitted log (suc i) k
unfolding uncommitted
uncommitted_skip log i k e h c = rw (h, uncommitted, c)

pub uncommitted_take :
    (log : ℕ → Option Entry) (i k : ℕ) (e : Entry)
    → log i ≡ some e
    → e.commit ≡ false
    → uncommitted log i (suc k) ≡ (i, entry_command e) ∷ uncommitted log (suc i) k
unfolding uncommitted
uncommitted_take log i k e h c = rw (h, uncommitted, c)

-- Nothing but pending entries of the range is in the promised log.
In-uncommitted :
    (log : ℕ → Option Entry) (i k s : ℕ) (cb : CommandBallot)
    → In (s, cb) (uncommitted log i k)
    → (i ≤ s) × (s < i + k) × Pending log s cb
In-uncommitted log i zero s cb h = unfold uncommitted in absurd h
In-uncommitted log i (suc k) s cb h = elim (Option-cases (log i)) [
  | inl e ↦ widen (In-uncommitted log (suc i) k s cb (rw (uncommitted-none log i k e) at h))
  | inr (e, at_i) ↦ elim (Bool-cases e.commit) [
    | inl c ↦
        widen (In-uncommitted log (suc i) k s cb (rw (uncommitted_skip log i k e at_i c) at h))
    | inr c ↦ elim (rw (uncommitted_take log i k e at_i c) at h) [
      | inl here ↦
          let at_s : s ≡ i = ap (λ t. t.0) here in
          let same : cb ≡ entry_command e = ap (λ t. t.1) here in
          (
            omega arith,
            omega arith,
            (e, ap log at_s ∙ at_i, c, ap (λ t. t.command) same, ap (λ t. t.ballot) same),
          )
      | inr later ↦ widen (In-uncommitted log (suc i) k s cb later)
    ]
  ]
]
  where
    widen :
        (suc i ≤ s) × (s < suc i + k) × Pending log s cb
        → (i ≤ s) × (s < i + suc k) × Pending log s cb
    widen (lo, hi, pending) = (omega arith, omega arith, pending)

-- Every pending entry of the range is in the promised log.
uncommitted-In :
    (log : ℕ → Option Entry) (i k s : ℕ) (e : Entry)
    → i ≤ s
    → s < i + k
    → log s ≡ some e
    → e.commit ≡ false
    → In (s, entry_command e) (uncommitted log i k)
uncommitted-In log i zero s e lo hi h c = absurd (omega arith)
uncommitted-In log i (suc k) s e lo hi h c = elim (dec_lt i s) [
  | no here ↦
      let same : i ≡ s = omega arith in
      rw (uncommitted_take log i k e (ap log same ∙ h) c) (inl (ground arith))
  | yes above ↦
      let later = uncommitted-In log (suc i) k s e above (omega arith) h c in
      elim (Option-cases (log i)) [
        | inl f ↦ rw (uncommitted-none log i k f) later
        | inr (f, at_i) ↦ elim (Bool-cases f.commit) [
          | inl d ↦ rw (uncommitted_skip log i k f at_i d) later
          | inr d ↦ rw (uncommitted_take log i k f at_i d) (inr later)
        ]
      ]
]

-- The reported log of a range holds exactly its pending entries.
uncommitted_iff :
    (log : ℕ → Option Entry) (i k s : ℕ) (cb : CommandBallot)
    → In (s, cb) (uncommitted log i k) ↔ ((i ≤ s) × (s < i + k) × Pending log s cb)
uncommitted_iff log i k s cb = (
  In-uncommitted log i k s cb,
  λ (lo, hi, (e, h, c, same_command, same_ballot)).
      let same : cb ≡ entry_command e =
        λ t. record { command = same_command t; ballot = same_ballot t } in
      rw same (uncommitted-In log i k s e lo hi h c),
)

-- A slot adds its own entry to what the later ones give, or nothing.
uncommitted_cases :
    (log : ℕ → Option Entry) (i k : ℕ)
    → (uncommitted log i (suc k) ≡ uncommitted log (suc i) k)
      ⊎ ((e : Entry) × (uncommitted log i (suc k)
            ≡ (i, entry_command e) ∷ uncommitted log (suc i) k))
uncommitted_cases log i k = elim (Option-cases (log i)) [
  | inl f ↦ inl (uncommitted-none log i k f)
  | inr (f, at_i) ↦ elim (Bool-cases f.commit) [
    | inl d ↦ inl (uncommitted_skip log i k f at_i d)
    | inr d ↦ inr (f, uncommitted_take log i k f at_i d)
  ]
]

slots_of-ge : (log : ℕ → Option Entry) (i k s : ℕ) → In s (slots_of (uncommitted log i k)) → i ≤ s
slots_of-ge log i zero s h = unfold uncommitted in absurd h
slots_of-ge log i (suc k) s h = elim (uncommitted_cases log i k) [
  | inl same ↦ omega (arith, slots_of-ge log (suc i) k s (rw same at h))
  | inr (e, same) ↦ elim (rw same at h) [
    | inl here ↦ omega arith
    | inr later ↦ omega (arith, slots_of-ge log (suc i) k s later)
  ]
]

-- Each slot is in the promised log once, as in a Go map.
pub uncommitted-Distinct :
    (log : ℕ → Option Entry) (i k : ℕ) → Distinct (slots_of (uncommitted log i k))
uncommitted-Distinct log i zero = unfold uncommitted in tt
uncommitted-Distinct log i (suc k) = elim (uncommitted_cases log i k) [
  | inl same ↦ rw same (uncommitted-Distinct log (suc i) k)
  | inr (e, same) ↦ rw same (
    (λ h. absurd (omega (arith, slots_of-ge log (suc i) k i h))),
    uncommitted-Distinct log (suc i) k,
  )
]

-- What HandleP1a does: the promise that it sends to the node of the prepare, and the instance that it
-- leaves.
pub record Promises (own : NodeId) (p : Paxos) (m : P1a) (p' : Paxos) (out : List Output) (b : P1b)
    : Type 0 where
  -- The promise is sent last, after the requests that are forwarded on a newer ballot.
  pub sent :
      out
      ≡ (if ltb p.ballot m.ballot then map (λ r. forward (ballot_id m.ballot) r) p.requests else [])
        ++ send (ballot_id m.ballot) (promise b) ∷ []
  pub ballot : b.ballot ≡ (if ltb p.ballot m.ballot then m.ballot else p.ballot)
  pub id : b.id ≡ own
  pub reported :
      (s : ℕ) (cb : CommandBallot)
      → In (s, cb) b.log ↔ ((p.execute ≤ s) × (s < p.slots) × Pending p.log s cb)
  pub once : Distinct (slots_of b.log)
  pub new_ballot : p'.ballot ≡ b.ballot
  pub same_log : p'.log ≡ p.log
  pub same_execute : p'.execute ≡ p.execute
  pub same_slots : p'.slots ≡ p.slots
  pub same_db : p'.db ≡ p.db
  pub same_quorum : p'.quorum ≡ p.quorum
  pub active : p'.active ≡ (if ltb p.ballot m.ballot then false else p.active)
  pub requests : p'.requests ≡ (if ltb p.ballot m.ballot then [] else p.requests)

-- The slots from `execute` on, counted up to the next slot.
range_iff : (i n s : ℕ) {P : Type 0} → ((i ≤ s) × (s < i + (n - i)) × P) ↔ ((i ≤ s) × (s < n) × P)
range_iff i n s =
    (λ (lo, hi, h). (lo, omega (arith, lo, hi), h), λ (lo, hi, h). (lo, omega (arith, lo, hi), h))

-- HandleP1a answers a prepare with one promise: it carries the larger of the two ballots and the
-- identifier of the node, and its log has exactly the entries from `execute` to `slot` that are not
-- committed, each slot once, with their commands and ballots; so no slot that the node knows to be
-- committed is in it. On a newer ballot the node adopts it, is not active afterwards, and forwards
-- its pending requests to the node of the ballot before the promise; else it changes nothing. The
-- log, the slots in use, the store and the quorum stay in both cases, and nothing else is sent.
pub handle_p1a-Promises :
    (setup : Setup) (p : Paxos) (m : P1a)
    → (b : P1b) × Promises setup.own p m (handle_p1a setup p m).0 (handle_p1a setup p m).1 b
unfolding handle_p1a forward_requests
handle_p1a-Promises setup p m =
    let k = p.slots - p.execute in
    let l = uncommitted p.log p.execute k in
    let reported : (s : ℕ) (cb : CommandBallot)
        → In (s, cb) l ↔ ((p.execute ≤ s) × (s < p.slots) × Pending p.log s cb) =
      λ s cb. iff_trans (uncommitted_iff p.log p.execute k s cb) (range_iff p.execute p.slots s) in
    elim (Bool-cases (ltb p.ballot m.ballot)) [
      | inl newer ↦ (
        record { ballot = m.ballot; id = setup.own; log = l },
        rw newer (record {
          sent = rw newer refl;
          ballot = rw newer refl;
          id = refl;
          reported = reported;
          once = uncommitted-Distinct p.log p.execute k;
          new_ballot = refl;
          same_log = refl;
          same_execute = refl;
          same_slots = refl;
          same_db = refl;
          same_quorum = refl;
          active = rw newer refl;
          requests = rw newer refl;
        }),
      )
      | inr older ↦ (
        record { ballot = p.ballot; id = setup.own; log = l },
        rw older (record {
          sent = rw older refl;
          ballot = rw older refl;
          id = refl;
          reported = reported;
          once = uncommitted-Distinct p.log p.execute k;
          new_ballot = refl;
          same_log = refl;
          same_execute = refl;
          same_slots = refl;
          same_db = refl;
          same_quorum = refl;
          active = rw older refl;
          requests = rw older refl;
        }),
      )
    ]
