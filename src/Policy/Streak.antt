-- ===== src/Policy/Streak.antt =====
-- The consecutive policy of policy.go on streaks of hits.
use paxi.Common.{
  ℕ, zero, suc, ◌+◌, ◌≤◌, ◌<◌, ◌≡◌, ◌≢◌, inl, inr, refl, sym, ap, subst, ◌∙◌, List, [], ◌∷◌,
  bytes_eq, bytes_eq_iff, bytes_eq_self, leb, if◌then◌else◌, length, replicate, take, All, In,
  Bool-cases, arith,
}
use paxi.Id.{NodeId}
use paxi.Policy.{Consecutive, new_consecutive, count_hit, hit_consecutive, hit_all}

-- The count is that of the latest hits, the newest first in `past`, all of them by `last`.
record Counts (past : List NodeId) (c : Consecutive) : Type 0 where
  recent : All (λ id. id ≡ c.last) (take c.hits past)
  within : c.hits ≤ length past

count_hit-Counts :
    (past : List NodeId) (c : Consecutive) (id : NodeId)
    → Counts past c
    → Counts (id ∷ past) (count_hit c id)
      × ((count_hit c id).last ≡ id)
      × ((count_hit c id).n ≡ c.n)
unfolding count_hit
count_hit-Counts past c id h = elim (Bool-cases (bytes_eq id c.last)) [
  | inl same ↦
      let here : id ≡ c.last = (bytes_eq_iff id c.last).0 same in
      rw same
        (record { recent = (here, h.recent); within = omega (arith, h.within) }, sym here, refl)
  | inr apart ↦ rw apart (record { recent = (refl, tt); within = omega arith }, refl, refl)
]

new-Counts : (threshold : ℕ) → Counts [] (new_consecutive threshold)
unfolding new_consecutive
new-Counts threshold = record { recent = tt; within = omega arith }

new_n : (threshold : ℕ) → (new_consecutive threshold).n ≡ threshold
unfolding new_consecutive
new_n threshold = refl

-- The hits of a sequence, the newest first, before those of `past`.
abbrev pub newest_first : List NodeId → List NodeId → List NodeId
newest_first past [] = past
newest_first past (id ∷ ids) = newest_first (id ∷ past) ids

hit_consecutive-Counts :
    (past : List NodeId) (c : Consecutive) (id : NodeId)
    → Counts past c
    → Counts (id ∷ past) (hit_consecutive c id).0 × ((hit_consecutive c id).0.n ≡ c.n)
unfolding hit_consecutive
hit_consecutive-Counts past c id h =
    let (h', last, same_n) = count_hit-Counts past c id h in
    elim (Bool-cases (leb (count_hit c id).n (count_hit c id).hits)) [
      | inl full ↦ rw full (record { recent = tt; within = omega arith }, same_n)
      | inr few ↦ rw few (h', same_n)
    ]

hit_all-Counts :
    (past ids : List NodeId) (c : Consecutive)
    → Counts past c
    → Counts (newest_first past ids) (hit_all c ids).0 × ((hit_all c ids).0.n ≡ c.n)
unfolding hit_all
hit_all-Counts past [] c h = (h, refl)
hit_all-Counts past (id ∷ ids) c h =
    let (h', same_n) = hit_consecutive-Counts past c id h in
    let (rest, same_n') = hit_all-Counts (id ∷ past) ids (hit_consecutive c id).0 h' in
    (rest, same_n' ∙ same_n)

All-take :
    (P : NodeId → Type 0) (n m : ℕ) (xs : List NodeId)
    → n ≤ m
    → All P (take m xs)
    → All P (take n xs)
All-take P zero m xs le h = tt
All-take P (suc n) zero xs le h = absurd (omega (arith, le))
All-take P (suc n) (suc m) [] le h = tt
All-take P (suc n) (suc m) (x ∷ xs) le (here, rest) =
    (here, All-take P n m xs (omega (arith, le)) rest)

-- After any hits on a new policy, a further hit that is answered with an identifier is answered with
-- its own, and there have been at least as many hits as the threshold, the last of them, that many,
-- all by this identifier.
pub trigger_streak :
    (threshold : ℕ) (ids : List NodeId) (id : NodeId)
    → (hit_consecutive (hit_all (new_consecutive threshold) ids).0 id).1 ≢ []
    → ((hit_consecutive (hit_all (new_consecutive threshold) ids).0 id).1 ≡ id)
      × (threshold ≤ length (id ∷ newest_first [] ids))
      × All (λ i. i ≡ id) (take threshold (id ∷ newest_first [] ids))
unfolding hit_consecutive
trigger_streak threshold ids id answered =
    let c = (hit_all (new_consecutive threshold) ids).0 in
    let (h, same_n) = hit_all-Counts [] ids (new_consecutive threshold) (new-Counts threshold) in
    let (h', last, same_n') = count_hit-Counts (newest_first [] ids) c id h in
    let n_is : (count_hit c id).n ≡ threshold = same_n' ∙ (same_n ∙ new_n threshold) in
    elim (Bool-cases (leb (count_hit c id).n (count_hit c id).hits)) [
      | inr few ↦ absurd (answered (rw few refl))
      | inl full ↦
          let reached : threshold ≤ (count_hit c id).hits = ground (arith, n_is) in
          (
            rw full last,
            omega (arith, reached, h'.within),
            All-take (λ i. i ≡ id) threshold (count_hit c id).hits (id ∷ newest_first [] ids)
                reached
                (subst
                  (λ x. All (λ i. i ≡ x) (take (count_hit c id).hits (id ∷ newest_first [] ids)))
                  last h'.recent),
          )
    ]

-- What a hit by `id` counts on.
abbrev counted : Consecutive → NodeId → ℕ
counted c id = if bytes_eq id c.last then c.hits else 0

count_hit_lem :
    (c : Consecutive) (id : NodeId)
    → ((count_hit c id).hits ≡ suc (counted c id))
      × ((count_hit c id).last ≡ id)
      × ((count_hit c id).n ≡ c.n)
unfolding count_hit
count_hit_lem c id = elim (Bool-cases (bytes_eq id c.last)) [
  | inl same ↦ rw same (refl, sym ((bytes_eq_iff id c.last).0 same), refl)
  | inr apart ↦ rw apart (refl, refl, refl)
]

streak_lem :
    (k : ℕ) (c : Consecutive) (id : NodeId)
    → counted c id < c.n
    → c.n ≤ counted c id + k
    → In id (hit_all c (replicate k id)).1
unfolding hit_all hit_consecutive
streak_lem zero c id below reach = absurd (omega (arith, below, reach))
streak_lem (suc k) c id below reach =
    let (hits, last, same_n) = count_hit_lem c id in
    let now : counted (count_hit c id) id ≡ (count_hit c id).hits =
      rw (ap (bytes_eq id) last ∙ bytes_eq_self id) refl in
    elim (Bool-cases (leb (count_hit c id).n (count_hit c id).hits)) [
      | inl full ↦ rw full (inl (sym last))
      | inr few ↦ rw few (
          inr (
            streak_lem k (count_hit c id) id (ground (arith, now))
              (omega (arith, now, hits, same_n, reach))))
    ]

-- As many hits by an identifier as the threshold, from a state that has counted fewer, are answered
-- with it at least once.
pub streak_triggers :
    (c : Consecutive) (id : NodeId) → c.hits < c.n → In id (hit_all c (replicate c.n id)).1
streak_triggers c id below = streak_lem c.n c id (ground arith) (ground arith)
