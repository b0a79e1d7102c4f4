-- ===== src/Verify/Groups.antt =====
-- The groups of `_verify_tenant_events`: each holds the events of one subject, in their order.
use mathlib.Core.List.{append_assoc}
use timeline.Base.{
  String, ◌≡◌, ◌≢◌, refl, sym, Bool, true, false, not, none, [], ◌∷◌, ◌++◌, reverse, append-nil,
  sort_with, sort_with-reverse, ◌==◌, eq_iff, eq_refl, select, select-append, select-select,
  select-reverse, Dict, Bool-cases, inl, inr, arith,
}
use timeline.Events.Row.{EventResult, HashContent}
use timeline.Events.Store.{Table, stream, of_tenant}
use timeline.Events.Chain.{IsIntact}
use timeline.Events.Chain.Order.{Linked-Ordered}
use timeline.Verify.{
  Tally, add_tally, time_le, verify_events_chain, add_to_group, group_by_subject, verify_groups,
}
use timeline.Verify.Chain.{Authentic, Linked-Authentic, verify_events_chain-valid}
use timeline.Verify.Subject.{Earlier-Before}

module _ {V : Type 0} where
  abbrev mine : String → EventResult V → Bool
  mine s e = e.subject_id == s

  abbrev others : String → EventResult V → Bool
  others s e = not (e.subject_id == s)

  -- The groups hold the events of a list, each group those of its subject.
  abbrev pub Partition : Table V → Dict (Table V) → Type 0
  Partition xs [] = xs ≡ []
  Partition xs ((s, es) ∷ groups) =
      (es ≡ select (mine s) xs) × Partition (select (others s) xs) groups

  Partition-add_to_group :
      (e : EventResult V) (xs : Table V) (groups : Dict (Table V))
      → Partition xs groups
      → Partition (xs ++ e ∷ []) (add_to_group e groups)
  Partition-add_to_group e xs [] h = rw (h, eq_refl) (refl, refl)
  Partition-add_to_group e xs ((s, es) ∷ groups) h = elim (Bool-cases (s == e.subject_id)) [
    | inl same ↦
        let back : e.subject_id == s ≡ true =
          ground (arith, eq_iff s e.subject_id, eq_iff e.subject_id s) in
        rw
          (
            same,
            select-append (mine s) xs (e ∷ []),
            select-append (others s) xs (e ∷ []),
            back,
            append-nil,
          )
          (rw (h.0) refl, h.1)
    | inr differ ↦
        let back : e.subject_id == s ≡ false =
          ground (arith, eq_iff s e.subject_id, eq_iff e.subject_id s) in
        rw
          (
            differ,
            select-append (mine s) xs (e ∷ []),
            select-append (others s) xs (e ∷ []),
            back,
            append-nil,
          )
          (h.0, Partition-add_to_group e (select (others s) xs) groups h.1)
  ]

  group_by_subject-from :
      (done es : Table V) (groups : Dict (Table V))
      → Partition done groups
      → Partition (done ++ es) (group_by_subject groups es)
  unfolding group_by_subject
  group_by_subject-from done [] groups h = rw append-nil h
  group_by_subject-from done (e ∷ es) groups h = rw (sym (append_assoc done (e ∷ []) es)) (
      group_by_subject-from (done ++ e ∷ []) es (add_to_group e groups)
        (Partition-add_to_group e done groups h))

  pub group_by_subject-Partition : (es : Table V) → Partition es (group_by_subject [] es)
  group_by_subject-Partition es = group_by_subject-from [] es [] refl

  mine-others_self :
      (t s : String) (xs : Table V) → t ≡ s → select (mine t) (select (others s) xs) ≡ []
  mine-others_self t s [] h = refl
  mine-others_self t s (e ∷ es) h = rw h (ground (arith, mine-others_self s s es refl))

  mine-others_ne :
      (t s : String) (xs : Table V)
      → t ≢ s
      → select (mine t) (select (others s) xs) ≡ select (mine t) xs
  mine-others_ne t s [] h = refl
  mine-others_ne t s (e ∷ es) h =
      ground (arith, mine-others_ne t s es h, eq_iff e.subject_id t, eq_iff e.subject_id s)

module _ {V : Type 0} (digest : HashContent V → String) where
  -- Sorted by time, the events of each subject are an authentic chain.
  abbrev pub WholeGroups : Table V → Type 0
  WholeGroups xs = (s : String) → Authentic digest none (sort_with time_le (select (mine s) xs))

  WholeGroups-others :
      (xs : Table V) (s : String) → WholeGroups xs → WholeGroups (select (others s) xs)
  WholeGroups-others xs s h t = elim (Bool-cases (t == s)) [
    | inl same ↦ rw (mine-others_self t s xs ((eq_iff t s).0 same)) tt
    | inr differ ↦ rw (mine-others_ne t s xs (λ e. cc (differ, (eq_iff t s).1 e))) (h t)
  ]

  pub verify_groups-valid :
      (t : Tally) (xs : Table V) (groups : Dict (Table V))
      → Partition xs groups
      → WholeGroups xs
      → (verify_groups digest t groups).invalid ≡ t.invalid
  unfolding verify_groups
  verify_groups-valid t xs [] p h = refl
  verify_groups-valid t xs ((s, es) ∷ groups) p h =
      let u = verify_events_chain digest (sort_with time_le es) in
      let valid : u.invalid ≡ 0 =
        (verify_events_chain-valid digest (sort_with time_le es)).1 (rw (p.0) (h s)) in
      omega (
        arith,
        verify_groups-valid (add_tally t u) (select (others s) xs) groups p.1
            (WholeGroups-others xs s h),
      )

  pub whole_groups :
      (tenant : String) (rows : Table V)
      → IsIntact digest rows
      → WholeGroups (reverse (of_tenant tenant rows))
  whole_groups tenant rows whole s =
      let linked = whole.at_stream s tenant in
      let es = stream s tenant rows in
      rw
        (
          select-reverse (mine s) (of_tenant tenant rows),
          select-select (mine s) (λ e. e.tenant_id == tenant) rows,
          sort_with-reverse time_le es (Earlier-Before es (Linked-Ordered digest none es linked)),
        )
        (Linked-Authentic digest none es linked)
