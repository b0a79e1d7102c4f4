-- ===== src/Subjects/Relations/Laws.antt =====
-- What adding and removing a relationship keep.
use timeline.Base.{
  ℕ, String, ◌≡◌, ◌≢◌, refl, sym, ap, ◌∙◌, true, false, not, Option, none, some, List, [], ◌∷◌,
  ◌++◌, All, All-append, select, select-append, select-eq_self, any, find, find-append, is_none,
  ◌==◌, eq_iff, eq_refl, Bool-cases, append-nil, Dict, Outcome, ok, raise, Outcome-cases,
  guard-eq-ok, guard_false, inl, inr, arith,
}
use timeline.Events.Store.{Table}
use timeline.Subjects.Audit.{Audit, audit, created, deleted}
use timeline.Subjects.{Subject, has_id}
use timeline.Subjects.Relations.{
  Relationship, Linked, Timeline, is_link, check_create, new_link, violates, create, delete,
  delete_found, check_add, add_created, add_checked, add_relationship, remove_relationship,
  emit_both, answered,
}

module _ {V : Type 0} where
  id_is_new :
      (links : List (Relationship V)) (r : Relationship V)
      → violates links r ≡ false
      → All (λ l. not (l.id == r.id) ≡ true) links
  unfolding violates
  id_is_new [] r h = tt
  id_is_new (l ∷ links) r h = (ground arith, id_is_new links r (ground arith))

  link_is_new :
      (links : List (Relationship V)) (r : Relationship V)
      → violates links r ≡ false
      → any (is_link r.tenant_id r.source_subject_id r.target_subject_id r.relationship_kind) links
        ≡ false
  unfolding violates
  link_is_new [] r h = refl
  link_is_new (l ∷ links) r h = ground (arith, link_is_new links r)

  abbrev Exists : String → List (Subject V) → String → Type 0
  Exists scope subjects subject_id = is_none (find (has_id subject_id scope) subjects) ≡ false

  -- The ends of a relationship are two different subjects of its tenant.
  abbrev pub HasEnds : List (Subject V) → Relationship V → Type 0
  HasEnds subjects r =
      (r.source_subject_id ≢ r.target_subject_id)
      × Exists r.tenant_id subjects r.source_subject_id
      × Exists r.tenant_id subjects r.target_subject_id

  created-HasEnds :
      (new_id : String) (now : ℕ) (scope tenant source target kind : String)
      (payload : Option (Dict V)) (subjects : List (Subject V))
      → check_create scope tenant source target subjects ≡ ok tt
      → HasEnds subjects (new_link new_id now scope source target kind payload)
  unfolding check_create
  created-HasEnds new_id now scope tenant source target kind payload subjects h =
      let after_tenant = (guard-eq-ok (not (tenant == scope)) _ _ h).1 in
      let (source_there, after_source) =
        guard-eq-ok (is_none (find (has_id source scope) subjects)) _ _ after_tenant in
      let (target_there, after_target) =
        guard-eq-ok (is_none (find (has_id target scope) subjects)) _ _ after_source in
      let apart = guard_false (source == target) _ after_target in
      ((λ same. ground (arith, eq_iff source target)), source_there, target_there)

  create-HasEnds :
      (new_id : String) (now : ℕ) (scope tenant source target kind : String)
      (payload : Option (Dict V)) (subjects : List (Subject V)) (links : List (Relationship V))
      → All (HasEnds subjects) links
      → All
          (HasEnds subjects)
          (create new_id now scope tenant source target kind payload subjects links).0
  unfolding create
  create-HasEnds new_id now scope tenant source target kind payload subjects links h =
      elim (Outcome-cases (check_create scope tenant source target subjects)) [
        | inl (e, refused) ↦ rw refused h
        | inr (done, passed) ↦
            let r = new_link new_id now scope source target kind payload in
            elim (Bool-cases (violates links r)) [
              | inl taken ↦ rw (passed, taken) h
              | inr free ↦
                  rw (passed, free)
                    (All-append (HasEnds subjects) links (r ∷ []) h (
                      created-HasEnds new_id now scope tenant source target kind payload subjects
                          passed,
                      tt,
                    ))
            ]
      ]

  answered-links :
      {A : Type 0} (links : List (Relationship V)) (audits : List Audit) (a : A)
      (emitted : Table V × Outcome (Unit {0}))
      → ((answered links audits a emitted).0).links ≡ links
  answered-links links audits a (events, raise e) = refl
  answered-links links audits a (events, ok u) = refl

  add_created-links :
      (timeline : Option (Timeline V)) (tenant : String) (world : Linked V)
      (made : List (Relationship V) × Outcome (Relationship V))
      → ((add_created timeline tenant world made).0).links ≡ made.0
  add_created-links timeline tenant world (links, raise e) = refl
  add_created-links timeline tenant world (links, ok r) =
      answered-links links (world.audits ++ audit r.tenant_id "subject_relationship" created ∷ []) r
        (emit_both timeline tenant r.source_subject_id r.target_subject_id r.relationship_kind
          "relationship_added" world.events)

  -- If every relationship is between two different subjects of its tenant, this is so after one is
  -- added, whether the call returns or raises, with the events of both timelines or without.
  pub add_relationship-HasEnds :
      (timeline : Option (Timeline V)) (kinds : Option (List String)) (new_id : String) (now : ℕ)
      (scope tenant source target kind : String) (payload : Option (Dict V))
      (subjects : List (Subject V)) (world : Linked V)
      → All (HasEnds subjects) world.links
      → All
          (HasEnds subjects)
          ((add_relationship timeline kinds new_id now scope tenant source target kind payload
              subjects world).0
            ).links
  unfolding add_relationship
  add_relationship-HasEnds timeline kinds new_id now scope tenant source target kind payload
        subjects world h =
      go (check_add kinds scope tenant source target kind subjects)
    where
      made : List (Relationship V) × Outcome (Relationship V)
      made = create new_id now scope tenant source target kind payload subjects world.links

      go :
          (checked : Outcome (Unit {0}))
          → All (HasEnds subjects) ((add_checked checked timeline tenant world made).0).links
      go (raise e) = h
      go (ok u) =
          rw (add_created-links timeline tenant world made) (
            create-HasEnds new_id now scope tenant source target kind payload subjects world.links
              h)

  delete_found-created :
      (links : List (Relationship V)) (r : Relationship V)
      → violates links r ≡ false
      → delete_found
          (find
            (is_link r.tenant_id r.source_subject_id r.target_subject_id r.relationship_kind)
            (links ++ r ∷ []))
          (links ++ r ∷ [])
        ≡ (links, true)
  delete_found-created links r free =
      let p = is_link r.tenant_id r.source_subject_id r.target_subject_id r.relationship_kind in
      let found : find p (links ++ r ∷ []) ≡ some r =
        find-append p links (r ∷ []) (link_is_new links r free)
        ∙ rw
            (
              eq_refl r.tenant_id,
              eq_refl r.source_subject_id,
              eq_refl r.target_subject_id,
              eq_refl r.relationship_kind,
            )
            refl in
      let others : select (λ (l : Relationship V). not (l.id == r.id)) links ≡ links =
        select-eq_self (λ (l : Relationship V). not (l.id == r.id)) links
          (id_is_new links r free) in
      rw
        (
          found,
          select-append (λ (l : Relationship V). not (l.id == r.id)) links (r ∷ []),
          others,
          eq_refl r.id,
          append-nil links,
        )
        refl

  tenant_matches :
      (scope tenant source target : String) (subjects : List (Subject V))
      → check_create scope tenant source target subjects ≡ ok tt
      → not (tenant == scope) ≡ false
  unfolding check_create
  tenant_matches scope tenant source target subjects passed =
      (guard-eq-ok (not (tenant == scope)) _ _ passed).0

  create-delete :
      (new_id : String) (now : ℕ) (scope tenant source target kind : String)
      (payload : Option (Dict V)) (subjects : List (Subject V))
      (links links' : List (Relationship V)) (r : Relationship V)
      → create new_id now scope tenant source target kind payload subjects links ≡ (links', ok r)
      → delete scope tenant source target kind links' ≡ (links, true)
  unfolding create delete
  create-delete new_id now scope tenant source target kind payload subjects links links' r h =
      elim (Outcome-cases (check_create scope tenant source target subjects)) [
        | inl (e, refused) ↦ absurd (let stop = rw refused at h in cc)
        | inr (done, passed) ↦
            let r' = new_link new_id now scope source target kind payload in
            elim (Bool-cases (violates links r')) [
              | inl taken ↦ absurd (let stop = rw (passed, taken) at h in cc)
              | inr free ↦
                  let same = rw (passed, free) at h in
                  let table : links ++ r' ∷ [] ≡ links' = ap (λ x. x.0) same in
                  let own = tenant_matches scope tenant source target subjects passed in
                  rw (sym table, own) (delete_found-created links r' free)
            ]
      ]

  add_created-quiet :
      (tenant : String) (world world' : Linked V)
      (made : List (Relationship V) × Outcome (Relationship V)) (r : Relationship V)
      → add_created none tenant world made ≡ (world', ok r)
      → (made ≡ (world'.links, ok r))
        × (world'.events ≡ world.events)
        × (world'.audits ≡ world.audits ++ audit r.tenant_id "subject_relationship" created ∷ [])
  unfolding emit_both
  add_created-quiet tenant world world' (links, raise e) r h = absurd cc
  add_created-quiet tenant world world' (links, ok r') r h =
      let same_world = ap (λ x. x.0) h in
      let same_row : r' ≡ r = cc in
      (
        rw (sym same_row, ap (λ w. w.links) same_world) refl,
        sym (ap (λ w. w.events) same_world),
        rw (sym same_row) (sym (ap (λ w. w.audits) same_world)),
      )

  create-scope :
      (new_id : String) (now : ℕ) (scope tenant source target kind : String)
      (payload : Option (Dict V)) (subjects : List (Subject V))
      (links links' : List (Relationship V)) (r : Relationship V)
      → create new_id now scope tenant source target kind payload subjects links ≡ (links', ok r)
      → r.tenant_id ≡ scope
  unfolding create
  create-scope new_id now scope tenant source target kind payload subjects links links' r h =
      elim (Outcome-cases (check_create scope tenant source target subjects)) [
        | inl (e, refused) ↦ absurd (let stop = rw refused at h in cc)
        | inr (done, passed) ↦
            let r' = new_link new_id now scope source target kind payload in
            elim (Bool-cases (violates links r')) [
              | inl taken ↦ absurd (let stop = rw (passed, taken) at h in cc)
              | inr free ↦
                  let same = rw (passed, free) at h in
                  let row : r' ≡ r = cc in ap (λ x. x.tenant_id) (sym row)
            ]
      ]

  -- Without an event service, removing a relationship that was just added gives back the
  -- relationships and the events as they were before, reports that one was removed, and has added
  -- two audit entries: that a relationship was created, and that one was deleted.
  pub add_relationship-remove :
      (kinds : Option (List String)) (new_id : String) (now : ℕ)
      (scope tenant source target kind : String) (payload : Option (Dict V))
      (subjects : List (Subject V)) (world world' : Linked V) (r : Relationship V)
      → add_relationship none kinds new_id now scope tenant source target kind payload subjects
          world
        ≡ (world', ok r)
      → remove_relationship none scope tenant source target kind world' ≡ (
        record world {
          audits =
              (world.audits ++ audit scope "subject_relationship" created ∷ [])
              ++ audit scope "subject_relationship" deleted ∷ [];
        },
        ok true,
      )
  unfolding add_relationship remove_relationship emit_both
  add_relationship-remove kinds new_id now scope tenant source target kind payload subjects world
        world' r h =
      elim (Outcome-cases (check_add kinds scope tenant source target kind subjects)) [
        | inl (e, refused) ↦ absurd (let stop = rw refused at h in cc)
        | inr (done, passed) ↦
            let made_by =
              create new_id now scope tenant source target kind payload subjects world.links in
            let (made, kept, logged) =
              add_created-quiet tenant world world' made_by r (rw passed at h) in
            let own =
              create-scope new_id now scope tenant source target kind payload subjects world.links
                world'.links r made in
            rw
              (
                create-delete new_id now scope tenant source target kind payload subjects
                    world.links world'.links r made,
                kept,
                logged,
                own,
              )
              refl
      ]
