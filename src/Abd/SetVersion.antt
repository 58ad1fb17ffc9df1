-- ===== src/Abd/SetVersion.antt =====
-- A run of abd/replica.go: the replies to a get and the set that they lead to.
use paxi.Common.{
  ==_self, ==_self, append-nil, append_assoc, All-append, All-map_if, ℕ, suc, ◌≤◌, ◌≡◌, refl, sym,
  ap, ◌∙◌, subst, true, false, none, some, List, [], ◌∷◌, ◌++◌, ◌==◌, ==→eq, if◌then◌else◌, put,
  arith, inl, inr, Bool-cases, Option-cases, All,
}
use paxi.Id.{NodeId}
use paxi.Config.{Config}
use paxi.Message.{Request}
use paxi.Abd.{
  Entry, Replica, GetReply, SetReply, Message, on_request, on_get, on_get_reply, on_set,
  on_set_reply, Output, get_state, run, collect_get, handle_get_reply, collect_set,
  handle_set_reply, handle_request, handle_get, deliver,
}
use paxi.Abd.GetPhase.{
  Covers, collect_get_lem, collect_set_lem, handle_set-log, collect_get-log, returned_pair,
}

-- The replies to the get of request `c` among the messages.
abbrev pub reply_to : ℕ → Message → List GetReply
reply_to c (on_get_reply m) = if m.cid == c then m ∷ [] else []
reply_to c (on_request m) = []
reply_to c (on_get m) = []
reply_to c (on_set m) = []
reply_to c (on_set_reply m) = []

abbrev pub replies_to : ℕ → List Message → List GetReply
replies_to c [] = []
replies_to c (x ∷ xs) = reply_to c x ++ replies_to c xs

-- Request `c` is in the log, and as long as its get phase lasts its entry has a version that is no
-- older than the those of the replies `gs`.
pub record Collects (c : ℕ) (request : Request) (gs : List GetReply) (r : Replica) : Type 0 where
  pub known : c ≤ r.cid
  pub entry : Entry
  pub logged : r.log c ≡ some entry
  pub asked : entry.request ≡ request
  pub newest : get_state entry.state ≡ true → All (λ g. g.version ≤ entry.version) gs

module _ (config : Config) (own : NodeId) (c : ℕ) (request : Request) where
  -- Nothing about request `c` changes.
  Collects-same :
      (gs : List GetReply) (r r' : Replica)
      → Collects c request gs r
      → r.cid ≤ r'.cid
      → r'.log c ≡ r.log c
      → Collects c request gs r'
  Collects-same gs r r' h le same = record {
    known = omega (arith, h.known, le);
    entry = h.entry;
    logged = same ∙ h.logged;
    asked = h.asked;
    newest = h.newest;
  }

  -- A reply to the get of request `c` itself.
  collect_get-Collects :
      (gs : List GetReply) (r : Replica) (m : GetReply) (h : Collects c request gs r)
      → (m.cid == c) ≡ true
      → let res = collect_get config own r h.entry m in
        Collects c request (gs ++ m ∷ []) (record res.0 { log = put res.0.log m.cid (some res.1) })
        × All (λ g. All (Covers request.command g.version) res.2) (gs ++ m ∷ [])
  collect_get-Collects gs r m h here =
      let (same, newest, covers) = collect_get_lem config own r h.entry m in
      let (log, cid) = collect_get-log config own r h.entry m in
      let res = collect_get config own r h.entry m in
      (
        record {
          known = omega (arith, cid, h.known);
          entry = res.1;
          logged = rw here refl;
          asked = same ∙ h.asked;
          newest = λ waiting.
              let (was, old, new) = newest waiting in
              All-append (λ g. g.version ≤ res.1.version) gs (m ∷ [])
                (All-map_if (Unit {0}) gs (λ u. h.newest was) (λ g le. omega (arith, le tt, old)))
                (new, tt);
        },
        All-append (λ g. All (Covers request.command g.version) res.2) gs (m ∷ [])
            (All-map_if (get_state h.entry.state ≡ true) gs h.newest (λ g le.
              subst (λ q. All (Covers q.command g.version) res.2) h.asked
                (covers g.version (inl le))))
            (
              subst (λ q. All (Covers q.command m.version) res.2) h.asked
                  (covers m.version (inr (omega arith))),
              tt,
            ),
      )

  handle_get_reply-Collects :
      (gs : List GetReply) (r r' : Replica) (m : GetReply) (out : List Output)
      → Collects c request gs r
      → handle_get_reply config own r m ≡ some (r', out)
      → m.cid ≡ c
      → Collects c request (gs ++ m ∷ []) r'
        × All (λ g. All (Covers request.command g.version) out) (gs ++ m ∷ [])
  unfolding handle_get_reply
  handle_get_reply-Collects gs r r' m out h ran here =
      subst
        (λ t.
          Collects c request (gs ++ m ∷ []) t.0
          × All (λ g. All (Covers request.command g.version) t.1) (gs ++ m ∷ []))
        (returned_pair (rw (handle_get_reply, ap r.log here ∙ h.logged) at ran))
        (collect_get-Collects gs r m h (rw here (==_self c)))

  handle_get_reply-apart :
      (gs : List GetReply) (r r' : Replica) (m : GetReply) (out : List Output)
      → Collects c request gs r
      → handle_get_reply config own r m ≡ some (r', out)
      → (m.cid == c) ≡ false
      → Collects c request gs r'
  unfolding handle_get_reply
  handle_get_reply-apart gs r r' m out h ran apart = elim (Option-cases (r.log m.cid)) [
    | inl missing ↦ let fails = rw (handle_get_reply, missing) at ran in absurd (ground arith)
    | inr (e, has) ↦
        let (log, cid) = collect_get-log config own r e m in
        subst (λ t. Collects c request gs t.0) (returned_pair (rw (handle_get_reply, has) at ran))
          (Collects-same gs r _ h (omega (arith, cid)) (rw apart (ap (λ l. l c) log)))
  ]

  handle_set_reply-Collects :
      (gs : List GetReply) (r r' : Replica) (m : SetReply) (out : List Output)
      → Collects c request gs r
      → handle_set_reply config own r m ≡ some (r', out)
      → Collects c request gs r'
  unfolding handle_set_reply
  handle_set_reply-Collects gs r r' m out h ran = elim (Bool-cases (m.cid == c)) [
    | inl same ↦
        let here : m.cid ≡ c = ==→eq m.cid c same in
        let (asked, version, state, covers) = collect_set_lem config own h.entry m in
        subst (λ t. Collects c request gs t.0)
          (returned_pair (rw (handle_set_reply, ap r.log here ∙ h.logged) at ran))
          (record {
            known = h.known;
            entry = (collect_set config own h.entry m).0;
            logged = rw same refl;
            asked = asked ∙ h.asked;
            newest = λ waiting.
                subst (λ v. All (λ g. g.version ≤ v) gs) (sym version) (h.newest (state waiting));
          })
    | inr apart ↦ elim (Option-cases (r.log m.cid)) [
      | inl missing ↦ let fails = rw (handle_set_reply, missing) at ran in absurd (ground arith)
      | inr (e, has) ↦
          subst (λ t. Collects c request gs t.0) (returned_pair (rw (handle_set_reply, has) at ran))
            (Collects-same gs r _ h (omega arith) (rw apart refl))
    ]
  ]

  handle_request-Collects :
      (gs : List GetReply) (r : Replica) (m : Request)
      → Collects c request gs r
      → Collects c request gs (handle_request config own r m).0
  unfolding handle_request
  handle_request-Collects gs r m h =
      let fresh : (suc r.cid == c) ≡ false = ground (arith, h.known) in
      Collects-same gs r _ h (omega arith) (rw fresh refl)

  deliver-Collects :
      (gs : List GetReply) (r r' : Replica) (x : Message) (out : List Output)
      → Collects c request gs r
      → deliver config own r x ≡ some (r', out)
      → Collects c request (gs ++ reply_to c x) r'
  unfolding deliver handle_get
  deliver-Collects gs r r' (on_request m) out h ran = rw (append-nil gs) (
      subst (λ t. Collects c request gs t.0) (returned_pair ran) (handle_request-Collects gs r m h))
  deliver-Collects gs r r' (on_get m) out h ran =
      rw (append-nil gs) (subst (λ t. Collects c request gs t.0) (returned_pair ran) h)
  deliver-Collects gs r r' (on_set m) out h ran =
      let (log, cid) = handle_set-log config own r m in
      rw (append-nil gs) (
        subst (λ t. Collects c request gs t.0) (returned_pair ran)
          (Collects-same gs r _ h (omega (arith, cid)) (ap (λ l. l c) log)))
  deliver-Collects gs r r' (on_set_reply m) out h ran =
      rw (append-nil gs) (handle_set_reply-Collects gs r r' m out h ran)
  deliver-Collects gs r r' (on_get_reply m) out h ran = elim (Bool-cases (m.cid == c)) [
    | inl same ↦ rw same ((handle_get_reply-Collects gs r r' m out h ran (==→eq m.cid c same)).0)
    | inr apart ↦ rw (apart, append-nil gs) (handle_get_reply-apart gs r r' m out h ran apart)
  ]

  run-Collects :
      (gs : List GetReply) (r r' : Replica) (xs : List Message)
      → Collects c request gs r
      → run config own r xs ≡ some r'
      → Collects c request (gs ++ replies_to c xs) r'
  unfolding run
  run-Collects gs r r' [] h ran =
      rw (append-nil gs)
        (subst (Collects c request gs) (ap (λ o. elim o [ none ↦ r | some t ↦ t ]) ran) h)
  run-Collects gs r r' (x ∷ xs) h ran = elim (Option-cases (deliver config own r x)) [
    | inl fails ↦ let never = rw (run, fails) at ran in absurd (ground arith)
    | inr ((r1, out), goes) ↦
        let next = deliver-Collects gs r r1 x out h goes in
        subst (λ l. Collects c request l r') (append_assoc gs (reply_to c x) (replies_to c xs))
          (run-Collects (gs ++ reply_to c x) r1 r' xs next (rw (run, goes) at ran))
  ]

  -- Whatever messages a replica has handled since request `c` was logged, what it sends on the
  -- next reply to the get of that request covers all the replies so far: a version that it sets is
  -- no older than that of any reply, and for a write newer than each of them.
  pub newest_set :
      (e : Entry) (r r1 r2 : Replica) (xs : List Message) (m : GetReply) (out : List Output)
      → c ≤ r.cid
      → r.log c ≡ some e
      → e.request ≡ request
      → run config own r xs ≡ some r1
      → handle_get_reply config own r1 m ≡ some (r2, out)
      → m.cid ≡ c
      → All (λ g. All (Covers request.command g.version) out) (replies_to c xs ++ m ∷ [])
  newest_set e r r1 r2 xs m out known logged asked ran last here =
      let start : Collects c request [] r = record {
        known = known;
        entry = e;
        logged = logged;
        asked = asked;
        newest = λ w. tt;
      } in
      (handle_get_reply-Collects (replies_to c xs) r1 r2 m out (run-Collects [] r r1 xs start ran)
        last here).1
