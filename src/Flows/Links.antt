-- ===== src/Flows/Links.antt =====
-- The links of a flow with subjects: `add_subjects_to_flow` of
-- app/infrastructure/persistence/repositories/flow_repo.py, and the links that `create_flow` makes.
--
-- `subject_tenant` is the subject table, by id. When a call raises, the transaction of its request
-- is rolled back, so that it has no table after it. Other sessions do not write in between.
use mathlib.Core.Path.{subst}
use text.Mathlib.TextEquality.{eq_iff}
use timeline.Base.{
  integrity, >>=-eq-ok, All-append, opt_eq_iff, String, ◌==◌, Bool, true, false, not, ◌&&◌, ◌||◌,
  Option, none, some, List, [], ◌∷◌, ◌++◌, any, opt_eq, ◌≡◌, refl, All, if◌then◌else◌, Outcome, ok,
  raise, raise_if, ◌>>◌, ◌>>=◌, not_found, validation, is_none, arith, guard-eq-ok,
}
use timeline.Flows.Compliance.{Flow, FlowSubject}

abbrev pub is_link : String → String → FlowSubject → Bool
is_link flow subject l = l.flow_id == flow && l.subject_id == subject

any-moved :
    {A : Type 0} (p : A → Bool) (xs : List A) (y : A) (ys : List A)
    → any p xs || any p (y ∷ ys) ≡ true
    → any p (xs ++ y ∷ []) || any p ys ≡ true
any-moved p [] y ys h = ground (arith, h)
any-moved p (x ∷ xs) y ys h = ground (arith, any-moved p xs y ys)

module _ (subject_tenant : String → Option String) (roles : String → Option String) where
  abbrev pub new_link : String → String → FlowSubject
  new_link flow subject = record { flow_id = flow; subject_id = subject; role = roles subject }

  -- The rows to add: those of the subjects that are not linked in the table. The session does not
  -- flush for a query, so that the rows added before in the loop are not seen.
  unfoldable pub pending_links :
      String → String → List FlowSubject → List String → Outcome (List FlowSubject)
  pending_links flow tenant links [] = ok []
  pending_links flow tenant links (sid ∷ sids) = do
    raise_if (not (opt_eq (subject_tenant sid) (some tenant))) (validation "subject_id")
    rest ← pending_links flow tenant links sids
    ok (if any (is_link flow sid) links then rest else new_link flow sid ∷ rest)

  -- The primary key, and the foreign key to the subject.
  unfoldable pub flush : List FlowSubject → List FlowSubject → Outcome (List FlowSubject)
  flush [] links = ok links
  flush (l ∷ rows) links =
      raise_if (any (is_link l.flow_id l.subject_id) links || is_none (subject_tenant l.subject_id))
        integrity
      >> flush rows (links ++ l ∷ [])

  -- `add_subjects_to_flow`, after the query for the flow
  abbrev pub adds_to :
      String → String → List String → List FlowSubject → Option Flow → Outcome (List FlowSubject)
  adds_to flow tenant sids links none = raise (not_found "flow" flow)
  adds_to flow tenant sids links (some f) =
      pending_links flow tenant links sids >>= λ rows. flush rows links

  abbrev pub new_links : String → List String → List FlowSubject
  new_links flow [] = []
  new_links flow (sid ∷ sids) = new_link flow sid ∷ new_links flow sids

  -- `create_flow`, after the flow's row
  abbrev pub create_links : String → List String → List FlowSubject → Outcome (List FlowSubject)
  create_links flow sids links = flush (new_links flow sids) links

  -- Each link of the flow is with a subject of the tenant.
  abbrev pub OwnSubjects : String → String → List FlowSubject → Type 0
  OwnSubjects flow tenant links =
      All (λ l. l.flow_id ≡ flow → subject_tenant l.subject_id ≡ some tenant) links

  flush-OwnSubjects :
      (flow tenant : String) (rows links : List FlowSubject) {after : List FlowSubject}
      → flush rows links ≡ ok after
      → OwnSubjects flow tenant rows
      → OwnSubjects flow tenant links
      → OwnSubjects flow tenant after
  unfolding flush
  flush-OwnSubjects flow tenant [] links h new old =
      let same : links ≡ _ = cc in subst (OwnSubjects flow tenant) same old
  flush-OwnSubjects flow tenant (l ∷ rows) links h new old =
      flush-OwnSubjects flow tenant rows (links ++ l ∷ []) ((guard-eq-ok _ _ _ h).1) (new.1) (
        All-append (λ m. m.flow_id ≡ flow → subject_tenant m.subject_id ≡ some tenant) links
          (l ∷ []) old (new.0, tt))

  picked-OwnSubjects :
      (flow tenant sid : String) (b : Bool) (rest rows : List FlowSubject)
      → subject_tenant sid ≡ some tenant
      → OwnSubjects flow tenant rest
      → ok (if b then rest else new_link flow sid ∷ rest) ≡ ok rows
      → OwnSubjects flow tenant rows
  picked-OwnSubjects flow tenant sid true rest rows own others h =
      let same : rest ≡ rows = cc in subst (OwnSubjects flow tenant) same others
  picked-OwnSubjects flow tenant sid false rest rows own others h =
      let same : new_link flow sid ∷ rest ≡ rows = cc in
      subst (OwnSubjects flow tenant) same ((λ e. own), others)

  pending_links-OwnSubjects :
      (flow tenant : String) (links : List FlowSubject) (sids : List String)
      (rows : List FlowSubject)
      → pending_links flow tenant links sids ≡ ok rows
      → OwnSubjects flow tenant rows
  unfolding pending_links
  pending_links-OwnSubjects flow tenant links [] rows h =
      let same : [] ≡ rows = cc in subst (OwnSubjects flow tenant) same tt
  pending_links-OwnSubjects flow tenant links (sid ∷ sids) rows h =
      let (checked, later) =
        guard-eq-ok (not (opt_eq (subject_tenant sid) (some tenant))) (validation "subject_id") _
          h in
      let (rest, found, picked) =
        >>=-eq-ok (pending_links flow tenant links sids)
          (λ x. ok (if any (is_link flow sid) links then x else new_link flow sid ∷ x)) later in
      let own : subject_tenant sid ≡ some tenant =
        (opt_eq_iff (subject_tenant sid) (some tenant)).0 (ground (arith, checked)) in
      picked-OwnSubjects flow tenant sid (any (is_link flow sid) links) rest rows own
        (pending_links-OwnSubjects flow tenant links sids rest found) picked

  flush-linked :
      (flow subject : String) (rows links : List FlowSubject) {after : List FlowSubject}
      → flush rows links ≡ ok after
      → any (is_link flow subject) links || any (is_link flow subject) rows ≡ true
      → any (is_link flow subject) after ≡ true
  unfolding flush
  flush-linked flow subject [] links h linked =
      let here : any (is_link flow subject) links ≡ true = ground (arith, linked) in
      let same : links ≡ _ = cc in subst (λ xs. any (is_link flow subject) xs ≡ true) same here
  flush-linked flow subject (l ∷ rows) links h linked =
      flush-linked flow subject rows (links ++ l ∷ []) ((guard-eq-ok _ _ _ h).1)
        (any-moved (is_link flow subject) links l rows linked)

  abbrev IsLinked : String → List FlowSubject → List FlowSubject → String → Type 0
  IsLinked flow links rows sid = any (is_link flow sid) links || any (is_link flow sid) rows ≡ true

  All-cons :
      (flow : String) (links rows : List FlowSubject) (l : FlowSubject) (sids : List String)
      → All (IsLinked flow links rows) sids
      → All (IsLinked flow links (l ∷ rows)) sids
  All-cons flow links rows l [] h = tt
  All-cons flow links rows l (sid ∷ sids) h =
      (ground (arith, h.0), All-cons flow links rows l sids h.1)

  picked-IsLinked :
      (flow sid : String) (links : List FlowSubject) (b : Bool) (rest rows : List FlowSubject)
      (sids : List String)
      → any (is_link flow sid) links ≡ b
      → All (IsLinked flow links rest) sids
      → ok (if b then rest else new_link flow sid ∷ rest) ≡ ok rows
      → All (IsLinked flow links rows) (sid ∷ sids)
  picked-IsLinked flow sid links true rest rows sids here others h =
      let same : rest ≡ rows = cc in
      subst (λ r. All (IsLinked flow links r) (sid ∷ sids)) same (ground (arith, here), others)
  picked-IsLinked flow sid links false rest rows sids here others h =
      let same : new_link flow sid ∷ rest ≡ rows = cc in
      subst (λ r. All (IsLinked flow links r) (sid ∷ sids)) same
        (
          ground (arith, eq_iff flow flow, eq_iff sid sid),
          All-cons flow links rest (new_link flow sid) sids others,
        )

  pending_links-IsLinked :
      (flow tenant : String) (links : List FlowSubject) (sids : List String)
      (rows : List FlowSubject)
      → pending_links flow tenant links sids ≡ ok rows
      → All (IsLinked flow links rows) sids
  unfolding pending_links
  pending_links-IsLinked flow tenant links [] rows h = tt
  pending_links-IsLinked flow tenant links (sid ∷ sids) rows h =
      let (checked, later) =
        guard-eq-ok (not (opt_eq (subject_tenant sid) (some tenant))) (validation "subject_id") _
          h in
      let (rest, found, picked) =
        >>=-eq-ok (pending_links flow tenant links sids)
          (λ x. ok (if any (is_link flow sid) links then x else new_link flow sid ∷ x)) later in
      picked-IsLinked flow sid links (any (is_link flow sid) links) rest rows sids refl
        (pending_links-IsLinked flow tenant links sids rest found) picked

  flush-All :
      (flow : String) (rows links : List FlowSubject) (sids : List String)
      {after : List FlowSubject}
      → flush rows links ≡ ok after
      → All (IsLinked flow links rows) sids
      → All (λ sid. any (is_link flow sid) after ≡ true) sids
  flush-All flow rows links [] h linked = tt
  flush-All flow rows links (sid ∷ sids) h linked =
      (flush-linked flow sid rows links h linked.0, flush-All flow rows links sids h linked.1)

  -- When adding subjects to a flow returns, each of them is linked to the flow; and when each subject
  -- that was linked to the flow is of the given tenant, then so is each that is linked now.
  pub adds_to-OwnSubjects :
      (flow tenant : String) (sids : List String) (links after : List FlowSubject)
      (found : Option Flow)
      → OwnSubjects flow tenant links
      → adds_to flow tenant sids links found ≡ ok after
      → OwnSubjects flow tenant after × All (λ sid. any (is_link flow sid) after ≡ true) sids
  adds_to-OwnSubjects flow tenant sids links after none old h = absurd cc
  adds_to-OwnSubjects flow tenant sids links after (some f) old h =
      let (rows, found, flushed) = >>=-eq-ok (pending_links flow tenant links sids) _ h in
      (
        flush-OwnSubjects flow tenant rows links flushed
            (pending_links-OwnSubjects flow tenant links sids rows found) old,
        flush-All flow rows links sids flushed
            (pending_links-IsLinked flow tenant links sids rows found),
      )
