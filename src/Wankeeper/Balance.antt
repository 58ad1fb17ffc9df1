-- ===== src/Wankeeper/Balance.antt =====
-- The tokens of wankeeper/tokens.go that a node has, makes and sends.
use paxi.Common.{
  ℕ, ◌+◌, ◌≤◌, ◌≡◌, inl, inr, refl, sym, ap, subst, ◌⊎◌, ◌∙◌, Bool, true, false, none, some, List,
  [], ◌∷◌, ◌++◌, bytes_eq, bytes_eq_self, ◌==◌, ==→eq, ==_self, if◌then◌else◌, arith, Bool-cases,
  Option-cases,
}
use paxi.Id.{NodeId}
use paxi.Db.{Key}
use paxi.Wankeeper.{
  Message, Output, send, multicast_zone, forward, reply, token, Tokens, contains, set,
}

-- Whether the node has the token of the key, as a number.
abbrev pub holds : Tokens → Key → ℕ
holds t k = elim (t.tokens k) [ none ↦ 0 | some id ↦ if bytes_eq id t.id then 1 else 0 ]

-- The tokens of the key that the node made: one for a key that the master knows.
abbrev pub made : Tokens → Key → ℕ
made t k = if t.master then elim (t.tokens k) [ none ↦ 0 | some id ↦ 1 ] else 0

-- The tokens of the key in a message.
abbrev pub carried : Key → Message → ℕ
carried k (token j) = if j == k then 1 else 0
carried k m = 0

-- The tokens of the key that are sent.
abbrev pub sent : Key → List Output → ℕ
sent k [] = 0
sent k (send to m ∷ out) = carried k m + sent k out
sent k (multicast_zone z m ∷ out) = carried k m + sent k out
sent k (forward to q ∷ out) = sent k out
sent k (reply q a ∷ out) = sent k out

pub sent-append : (k : Key) (xs ys : List Output) → sent k (xs ++ ys) ≡ sent k xs + sent k ys
sent-append k [] ys = omega arith
sent-append k (send to m ∷ xs) ys = omega (arith, sent-append k xs ys)
sent-append k (multicast_zone z m ∷ xs) ys = omega (arith, sent-append k xs ys)
sent-append k (forward to q ∷ xs) ys = sent-append k xs ys
sent-append k (reply q a ∷ xs) ys = sent-append k xs ys

-- What is there afterwards was there, came in, or was made.
pub record Balance (k : Key) (t t' : Tokens) (got : ℕ) (out : List Output) : Type 0 where
  pub count : holds t' k + sent k out + made t k ≤ holds t k + got + made t' k
  pub same_id : t'.id ≡ t.id
  pub same_master : t'.master ≡ t.master

pub Balance-refl : (k : Key) (t : Tokens) (out : List Output) → sent k out ≡ 0 → Balance k t t 0 out
Balance-refl k t out h = record { count = omega (arith, h); same_id = refl; same_master = refl }

pub Balance-trans :
    {k : Key} {t t' t'' : Tokens} {g g' : ℕ} {out out' : List Output}
    → Balance k t t' g out
    → Balance k t' t'' g' out'
    → Balance k t t'' (g + g') (out ++ out')
Balance-trans {k} {t} {t'} {t''} {g} {g'} {out} {out'} a b = record {
  count = omega (arith, a.count, b.count, sent-append k out out');
  same_id = b.same_id ∙ a.same_id;
  same_master = b.same_master ∙ a.same_master;
}

-- A step after which nothing more comes in.
pub Balance-then :
    {k : Key} {t t' t'' : Tokens} {g : ℕ} {out out' : List Output}
    → Balance k t t' g out
    → Balance k t' t'' 0 out'
    → Balance k t t'' g (out ++ out')
Balance-then {k} {t} {t'} {t''} {g} {out} {out'} a b = record {
  count = omega (arith, a.count, b.count, sent-append k out out');
  same_id = b.same_id ∙ a.same_id;
  same_master = b.same_master ∙ a.same_master;
}

-- The same tokens, and none sent.
pub Balance-same :
    {k : Key} {t t' : Tokens} {out : List Output} → t' ≡ t → sent k out ≡ 0 → Balance k t t' 0 out
Balance-same {k} {t} {t'} {out} same none_sent =
    subst (λ x. Balance k t x 0 out) (sym same) (Balance-refl k t out none_sent)

pub Balance-resent :
    {k : Key} {t t' : Tokens} {g : ℕ} {out out' : List Output}
    → Balance k t t' g out
    → sent k out' ≡ sent k out
    → Balance k t t' g out'
Balance-resent a h = record {
  count = omega (arith, a.count, h);
  same_id = a.same_id;
  same_master = a.same_master;
}

pub made_le : (t : Tokens) (k : Key) → made t k ≤ (if t.master then 1 else 0)
made_le t k = elim (Bool-cases t.master) [
  | inr leader ↦ rw (made, leader) (omega arith)
  | inl master ↦ elim (Option-cases (t.tokens k)) [
    | inl unknown ↦ rw (made, master, unknown) (omega arith)
    | inr (id, known) ↦ rw (made, master, known) (omega arith)
  ]
]

holds_le : (t : Tokens) (k : Key) → holds t k ≤ 1
holds_le t k = elim (Option-cases (t.tokens k)) [
  | inl unknown ↦ rw (holds, unknown) (omega arith)
  | inr (id, known) ↦ elim (Bool-cases (bytes_eq id t.id)) [
    | inl mine ↦ rw (holds, known, mine) (omega arith)
    | inr other ↦ rw (holds, known, other) (omega arith)
  ]
]

-- What a node has that knows the token.
known_made : (t : Tokens) (k : Key) → holds t k ≡ 1 → made t k ≡ (if t.master then 1 else 0)
known_made t k has = elim (Option-cases (t.tokens k)) [
  | inl unknown ↦ let no : 0 ≡ 1 = rw (holds, unknown) at has in absurd (omega (arith, no))
  | inr (id, known) ↦ rw (made, known) refl
]

set_here :
    (t : Tokens) (j : Key) (id : NodeId) (k : Key) (mine : Bool)
    → (j == k) ≡ true
    → bytes_eq id t.id ≡ mine
    → (holds (set t j id) k ≡ (if mine then 1 else 0))
      × (made (set t j id) k ≡ (if t.master then 1 else 0))
unfolding set
set_here t j id k mine same is_own = rw (holds, made, same, is_own) (refl, refl)

set_apart :
    (t : Tokens) (j : Key) (id : NodeId) (k : Key)
    → (j == k) ≡ false
    → (holds (set t j id) k ≡ holds t k) × (made (set t j id) k ≡ made t k)
unfolding set
set_apart t j id k apart = rw (holds, made, apart) (refl, refl)

-- The master makes a token that it does not know, as if it were given to itself.
contains_lem :
    (t : Tokens) (j : Key)
    → ((contains t j).0 ≡ t)
      ⊎ ((t.master ≡ true)
          × (holds t j ≡ 0)
          × (made t j ≡ 0)
          × (contains t j ≡ (set t j t.id, true)))
unfolding contains set
contains_lem t j = elim (Option-cases (t.tokens j)) [
  | inr (id, known) ↦ inl (rw (contains, known) refl)
  | inl unknown ↦ elim (Bool-cases t.master) [
    | inr leader ↦ inl (rw (contains, unknown, leader) refl)
    | inl master ↦ inr (
      master,
      rw (holds, unknown) refl,
      rw (made, unknown, master) refl,
      rw (contains, unknown, master) refl,
    )
  ]
]

pub contains-Balance : (k : Key) (t : Tokens) (j : Key) → Balance k t (contains t j).0 0 []
unfolding set
contains-Balance k t j = elim (contains_lem t j) [
  | inl same ↦ subst (λ x. Balance k t x 0 []) (sym same) (Balance-refl k t [] refl)
  | inr (master, none_here, none_made, new) ↦ rw new (record {
    count = elim (Bool-cases (j == k)) [
      | inr apart ↦ let (h, m) = set_apart t j t.id k apart in omega (arith, h, m)
      | inl same ↦
          let at_k = ==→eq j k same in
          let (h, m) = set_here t j t.id k true same (bytes_eq_self t.id) in
          let most = made_le t k in
          let new_made : made t k ≡ 0 = ap (made t) (sym at_k) ∙ none_made in
          let now : ◌≡◌ {A = ℕ} (if t.master then 1 else 0) 1 = rw master refl in
          omega (arith, h, m, new_made, now)
    ];
    same_id = refl;
    same_master = refl;
  })
]

-- contains answers whether the token is there, for a node with an identifier.
pub contains-holds :
    (t : Tokens) (j : Key)
    → bytes_eq [] t.id ≡ false
    → (contains t j).1 ≡ true
    → holds (contains t j).0 j ≡ 1
unfolding contains
contains-holds t j named has = elim (contains_lem t j) [
  | inr (master, none_here, none_made, new) ↦
      rw new (set_here t j t.id j true (==_self j) (bytes_eq_self t.id)).0
  | inl same ↦ ap (λ x. holds x j) same ∙ elim (Option-cases (t.tokens j)) [
    | inr (id, known) ↦
        let mine : bytes_eq id t.id ≡ true = rw (contains, known) at has in
        rw (holds, known, mine) refl
    | inl unknown ↦ elim (Bool-cases t.master) [
      | inr leader ↦
          let no : bytes_eq [] t.id ≡ true = rw (contains, unknown, leader) at has in cc (no, named)
      | inl master ↦
          let new : (contains t j).0.tokens j ≡ some t.id =
            rw (contains, unknown, master, ==_self j) refl in
          let clash : none ≡ some t.id = sym unknown ∙ (sym (ap (λ x. x.tokens j) same) ∙ new) in
          cc clash
    ]
  ]
]

-- Giving a token that is there to another node.
pub give-Balance :
    (k : Key) (t : Tokens) (j : Key) (id to : NodeId)
    → holds t j ≡ 1
    → bytes_eq id t.id ≡ false
    → Balance k t (set t j id) 0 (send to (token j) ∷ [])
unfolding set
give-Balance k t j id to has other = record {
  count = elim (Bool-cases (j == k)) [
    | inr apart ↦ let (h, m) = set_apart t j id k apart in rw apart (omega (arith, h, m))
    | inl same ↦
        let has_k : holds t k ≡ 1 = ap (holds t) (sym (==→eq j k same)) ∙ has in
        let (h, m) = set_here t j id k false same other in
        let all_made = known_made t k has_k in rw same (omega (arith, h, m, has_k, all_made))
  ];
  same_id = refl;
  same_master = refl;
}

-- Taking a token that comes in.
pub take-Balance :
    (k : Key) (t : Tokens) (j : Key) (id : NodeId)
    → Balance k t (set t j id) (carried k (token j)) []
unfolding set
take-Balance k t j id = record {
  count = elim (Bool-cases (j == k)) [
    | inr apart ↦ let (h, m) = set_apart t j id k apart in rw apart (omega (arith, h, m))
    | inl same ↦
        let most = made_le t k in
        let (h, m) = set_here t j id k (bytes_eq id t.id) same refl in
        let one = holds_le (set t j id) k in rw same (omega (arith, one, m, most))
  ];
  same_id = refl;
  same_master = refl;
}
