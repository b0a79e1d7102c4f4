-- ===== src/Anchoring/Final.antt =====
-- The life of an anchor: whatever is done to the table, a confirmed row stays as it is.
use timeline.Base.{
  ℕ, String, ◌≡◌, refl, ap, ◌∙◌, Bool, true, false, not, ◌&&◌, ◌||◌, Option, none, some, [], ◌∷◌,
  ◌++◌, is_some, All, All-append, ◌==◌, Bool-cases, arith, inl, inr,
}
use timeline.Anchoring.{
  AnchorStatus, pending, failed, confirmed, ChainAnchor, Anchors, is_confirmed, is_failed,
  is_pending, update_row, with_status, update_confirmed, update_failed, update_to_pending,
  create_pending, is_taken, pending_anchor,
}

-- What the row `b` is of `a`: the same anchor, and the same row if `a` is confirmed.
pub record Continues (a b : ChainAnchor) : Type 0 where
  pub same_id : b.id ≡ a.id
  pub same_tenant : b.tenant_id ≡ a.tenant_id
  pub same_subject : b.subject_id ≡ a.subject_id
  pub same_tip : b.chain_tip_hash ≡ a.chain_tip_hash
  pub is_final : a.status ≡ confirmed → b ≡ a

-- The second table holds a row for each row of the first, in place, and perhaps new ones.
pub data Follows : Anchors → Anchors → Type 0 where
  added : (new : Anchors) → Follows [] new
  kept :
      {a b : ChainAnchor} {xs ys : Anchors}
      → Continues a b
      → Follows xs ys
      → Follows (a ∷ xs) (b ∷ ys)

-- One call of the repository that writes.
pub data Step : Anchors → Anchors → Type 0 where
  creates :
      (new_id : String) (now : ℕ) (tenant tip url : String) (anchored_at : Option ℕ)
      (subject : Option String) (rows : Anchors)
      → Step rows (create_pending new_id now tenant tip url anchored_at subject rows).0
  confirms :
      (id receipt : String) (serial : Option String) (rows : Anchors)
      → Step rows (update_confirmed id receipt serial rows).0
  fails : (id error : String) (rows : Anchors) → Step rows (update_failed id error rows).0
  retries : (id : String) (rows : Anchors) → Step rows (update_to_pending id rows).0

pub data Reach : Anchors → Anchors → Type 0 where
  here : {rows : Anchors} → Reach rows rows
  next : {a b c : Anchors} → Reach a b → Step b c → Reach a c

Continues-refl : (a : ChainAnchor) → Continues a a
Continues-refl a = record {
  same_id = refl;
  same_tenant = refl;
  same_subject = refl;
  same_tip = refl;
  is_final = λ _. refl;
}

Continues-trans : (a b c : ChainAnchor) → Continues a b → Continues b c → Continues a c
Continues-trans a b c h k = record {
  same_id = k.same_id ∙ h.same_id;
  same_tenant = k.same_tenant ∙ h.same_tenant;
  same_subject = k.same_subject ∙ h.same_subject;
  same_tip = k.same_tip ∙ h.same_tip;
  is_final = λ e. k.is_final (ap (λ (x : ChainAnchor). x.status) (h.is_final e) ∙ e) ∙ h.is_final e;
}

pub Follows-refl : (rows : Anchors) → Follows rows rows
Follows-refl [] = added []
Follows-refl (a ∷ rows) = kept (Continues-refl a) (Follows-refl rows)

pub Follows-trans : {xs ys zs : Anchors} → Follows xs ys → Follows ys zs → Follows xs zs
Follows-trans {zs = zs} (added new) k = added zs
Follows-trans (kept c h) (kept d k) = kept (Continues-trans _ _ _ c d) (Follows-trans h k)

Follows-append : (rows new : Anchors) → Follows rows (rows ++ new)
Follows-append [] new = added new
Follows-append (a ∷ rows) new = kept (Continues-refl a) (Follows-append rows new)

-- An update that no confirmed row is allowed, and that keeps what an anchor is of.
update_row-Follows :
    (id : String) (allowed : ChainAnchor → Bool) (change : ChainAnchor → ChainAnchor)
    (rows : Anchors)
    → ((a : ChainAnchor) → allowed a ≡ true → Continues a (change a))
    → Follows rows (update_row id allowed change rows)
update_row-Follows id allowed change [] c = added []
update_row-Follows id allowed change (a ∷ rows) c = elim (Bool-cases (a.id == id && allowed a)) [
  | inl hit ↦ rw hit (kept (c a (ground arith)) (update_row-Follows id allowed change rows c))
  | inr miss ↦ rw miss (kept (Continues-refl a) (update_row-Follows id allowed change rows c))
]

unconfirmed :
    (a : ChainAnchor) (status : AnchorStatus) (receipt serial error : Option String)
    → is_confirmed a.status ≡ false
    → Continues a (with_status status receipt serial error a)
unconfirmed a status receipt serial error h = record {
  same_id = refl;
  same_tenant = refl;
  same_subject = refl;
  same_tip = refl;
  is_final = λ e. ground arith;
}

pub confirms-Follows :
    (id receipt : String) (serial : Option String) (rows : Anchors)
    → Follows rows (update_confirmed id receipt serial rows).0
unfolding update_confirmed
confirms-Follows id receipt serial rows =
    update_row-Follows id (λ a. is_pending a.status || is_failed a.status)
      (λ a. with_status confirmed (some receipt) serial none a) rows
      (λ a h. unconfirmed a confirmed (some receipt) serial none (open_status a.status h))
  where
    open_status : (s : AnchorStatus) → is_pending s || is_failed s ≡ true → is_confirmed s ≡ false
    open_status pending h = refl
    open_status failed h = refl
    open_status confirmed h = cc

pub fails-Follows :
    (id error : String) (rows : Anchors) → Follows rows (update_failed id error rows).0
unfolding update_failed
fails-Follows id error rows =
    update_row-Follows id (λ a. not (is_confirmed a.status))
      (λ a. with_status failed a.tsa_receipt a.tsa_serial (some error) a) rows
      (λ a h. unconfirmed a failed a.tsa_receipt a.tsa_serial (some error) (ground arith))

pub retries-Follows : (id : String) (rows : Anchors) → Follows rows (update_to_pending id rows).0
unfolding update_to_pending
retries-Follows id rows =
    update_row-Follows id (λ a. is_failed a.status)
      (λ a. with_status pending a.tsa_receipt a.tsa_serial none a) rows
      (λ a h. unconfirmed a pending a.tsa_receipt a.tsa_serial none (open_status a.status h))
  where
    open_status : (s : AnchorStatus) → is_failed s ≡ true → is_confirmed s ≡ false
    open_status pending h = refl
    open_status failed h = refl
    open_status confirmed h = cc

pub creates-Follows :
    (new_id : String) (now : ℕ) (tenant tip url : String) (anchored_at : Option ℕ)
    (subject : Option String) (rows : Anchors)
    → Follows rows (create_pending new_id now tenant tip url anchored_at subject rows).0
unfolding create_pending
creates-Follows new_id now tenant tip url anchored_at subject rows =
    elim (Bool-cases
      (is_taken rows (pending_anchor new_id now tenant tip url anchored_at subject))) [
        | inl old ↦ rw old (Follows-refl rows)
        | inr new ↦ rw new (Follows-append rows _)
      ]

Step-Follows : {rows rows' : Anchors} → Step rows rows' → Follows rows rows'
Step-Follows (creates new_id now tenant tip url anchored_at subject rows) =
    creates-Follows new_id now tenant tip url anchored_at subject rows
Step-Follows (confirms id receipt serial rows) = confirms-Follows id receipt serial rows
Step-Follows (fails id error rows) = fails-Follows id error rows
Step-Follows (retries id rows) = retries-Follows id rows

-- In any order of writes by any sessions, a confirmed anchor stays as it is, receipt included, and
-- every anchor stays the anchor of its tenant, subject and tip.
pub Reach-Follows : {rows rows' : Anchors} → Reach rows rows' → Follows rows rows'
Reach-Follows {rows = rows} here = Follows-refl rows
Reach-Follows (next r s) = Follows-trans (Reach-Follows r) (Step-Follows s)

-- A confirmed anchor carries a receipt and no error, a failed one an error, and a pending one none.
abbrev pub IsConsistent : ChainAnchor → Type 0
IsConsistent a = elim a.status [
  | pending ↦ a.error_message ≡ none
  | failed ↦ is_some a.error_message ≡ true
  | confirmed ↦ (is_some a.tsa_receipt ≡ true) × (a.error_message ≡ none)
]

update_row-IsConsistent :
    (id : String) (allowed : ChainAnchor → Bool) (change : ChainAnchor → ChainAnchor)
    (rows : Anchors)
    → ((a : ChainAnchor) → IsConsistent (change a))
    → All IsConsistent rows
    → All IsConsistent (update_row id allowed change rows)
update_row-IsConsistent id allowed change [] c h = tt
update_row-IsConsistent id allowed change (a ∷ rows) c h =
    elim (Bool-cases (a.id == id && allowed a)) [
      | inl hit ↦ rw hit (c a, update_row-IsConsistent id allowed change rows c h.1)
      | inr miss ↦ rw miss (h.0, update_row-IsConsistent id allowed change rows c h.1)
    ]

-- If the columns of every anchor agree with its status, they do after any write: a confirmed anchor
-- has a receipt and no error, a failed one has an error, and a pending one has none.
pub Step-IsConsistent :
    {rows rows' : Anchors} → Step rows rows' → All IsConsistent rows → All IsConsistent rows'
unfolding create_pending update_confirmed update_failed update_to_pending
Step-IsConsistent (creates new_id now tenant tip url anchored_at subject rows) h =
    elim (Bool-cases
      (is_taken rows (pending_anchor new_id now tenant tip url anchored_at subject))) [
        | inl old ↦ rw old h
        | inr new ↦ rw new (All-append IsConsistent rows _ h (refl, tt))
      ]
Step-IsConsistent (confirms id receipt serial rows) h =
    update_row-IsConsistent id _ _ rows (λ a. (refl, refl)) h
Step-IsConsistent (fails id error rows) h = update_row-IsConsistent id _ _ rows (λ a. refl) h
Step-IsConsistent (retries id rows) h = update_row-IsConsistent id _ _ rows (λ a. refl) h
