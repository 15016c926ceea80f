-- ===== src/Agent/Udp/Runs.antt =====
-- internal/agent/udp.go: what holds after every order of steps.
use mathlib.Core.Path.{subst}
use faketunnel.Base.Ids.{erase_id-All, lookup_id-All}
use faketunnel.Base.{
  ℕ, ◌≡◌, refl, sym, inl, inr, Bool, true, Option, none, some, List, [], ◌∷◌, arith, ◌==◌,
  if◌then◌else◌, ==_iff, Bool-cases, Option-cases, is_some, All, All-weaken,
}
use faketunnel.Base.Ids.{lookup_id, erase_id, assign_id, lookup_id-erase_id, lookup_id-assign_id}
use faketunnel.Agent.Udp.{
  Assoc, Hub, new_hub, close_assoc, open_assoc, write_local, stale, ids_of, shut, leave, Step,
  opens, enters, writes, closes, reaps, shuts, leaves, step, run_steps,
}
use faketunnel.Agent.Udp.Invariant.{
  count, IsNew, is_member, IsValid, new_hub-IsValid, erase_unique, erase_count,
}
use faketunnel.Agent.Udp.Preserved.{
  close_assoc_keeps, without, without_keeps, StillLeaving, open_assoc_keeps, enter_assoc_keeps,
  close_each_keeps,
}

abbrev touched : ℕ → Assoc → ℕ → Hub → Hub
touched id a now h = record h { assocs = assign_id id (record a { last = now }) h.assocs }

abbrev IsLeaving : List ℕ → ℕ × Assoc → Type 0
IsLeaving ids e = is_member e.0 ids ≡ true

touched-IsNew :
    (o : Option (ℕ × ℕ)) (id : ℕ) (m : List (ℕ × Assoc)) (a b : Assoc)
    → lookup_id id m ≡ some a
    → IsNew o m
    → IsNew o (assign_id id b m)
touched-IsNew none id m a b found new = tt
touched-IsNew (some (j, c)) id m a b found new = elim (Bool-cases (id == j)) [
  | inl e ↦
      let same : lookup_id id m ≡ none =
        subst (λ k. lookup_id k m ≡ none) (sym ((==_iff id j).0 e)) new in
      absurd (ground (arith, found, same))
  | inr e ↦ ground (arith, new, e, lookup_id-assign_id id j b m)
]

touched_keeps :
    (max id : ℕ) (a : Assoc) (now : ℕ) (h : Hub)
    → lookup_id id h.assocs ≡ some a
    → IsValid max h
    → IsValid max (touched id a now h)
unfolding assign_id
touched_keeps max id a now h found v = record {
  unique = (ground (arith, lookup_id-erase_id id id h.assocs), erase_unique id h.assocs v.unique);
  new_id = touched-IsNew h.opening id h.assocs a (record a { last = now }) found v.new_id;
  capped = omega (arith, v.capped, (erase_count id 0 h.assocs a v.unique found).1);
  held = λ c. ground (arith, v.held c, (erase_count id c h.assocs a v.unique found).0);
  leaving = elim (v.leaving) [
    | inl e ↦ inl e
    | inr l ↦ inr (
      lookup_id-All (IsLeaving h.leaving) id h.assocs l found,
      erase_id-All (IsLeaving h.leaving) id h.assocs l,
    )
  ];
}

write_local_keeps :
    (max id now : ℕ) (sends writable : Bool) (h : Hub)
    → IsValid max h
    → IsValid max (write_local id now sends writable h)
unfolding write_local
write_local_keeps max id now sends writable h v = elim (Option-cases (lookup_id id h.assocs)) [
  | inl e ↦
      let same : write_local id now sends writable h ≡ h = ground (arith, e) in
      subst (IsValid max) (sym same) v
  | inr p ↦
      let (a, e) = p in
      let valid = touched_keeps max id a now h e v in
      elim (Bool-cases sends) [
        | inl s ↦
            let same : write_local id now sends writable h ≡ touched id a now h =
              ground (arith, e, s) in
            subst (IsValid max) (sym same) valid
        | inr s ↦
            let same : write_local id now sends writable h
                ≡ close_assoc id true writable (touched id a now h) =
              ground (arith, e, s) in
            subst (IsValid max) (sym same)
              (close_assoc_keeps max id true writable (touched id a now h) valid)
      ]
]

All-IsLeaving : (m : List (ℕ × Assoc)) → All (IsLeaving (ids_of m)) m
All-IsLeaving [] = tt
All-IsLeaving ((id, a) ∷ m) =
    (ground arith, All-weaken (λ e h. ground (arith, h)) m (All-IsLeaving m))

shut_keeps : (max : ℕ) (h : Hub) → IsValid max h → IsValid max (shut h)
unfolding shut
shut_keeps max h v = elim (Bool-cases h.closed) [
  | inl e ↦ let same : shut h ≡ h = ground (arith, e) in subst (IsValid max) (sym same) v
  | inr e ↦
      let same : shut h ≡ record h { closed = true; leaving = ids_of h.assocs } =
        ground (arith, e) in
      subst (IsValid max) (sym same) (record {
        unique = v.unique;
        new_id = v.new_id;
        capped = v.capped;
        held = v.held;
        leaving = inr (All-IsLeaving h.assocs);
      })
]

rest-IsLeaving :
    (id : ℕ) (rest : List ℕ) (m : List (ℕ × Assoc))
    → All (IsLeaving (id ∷ rest)) m
    → lookup_id id m ≡ none
    → All (IsLeaving rest) m
unfolding lookup_id
rest-IsLeaving id rest [] h e = tt
rest-IsLeaving id rest ((j, a) ∷ m) h e =
    (ground (arith, h.0, e), rest-IsLeaving id rest m h.1 (ground (arith, e)))

-- a closing that closeAll still has to do
leave_from :
    (max : ℕ) (h : Hub) (ids : List ℕ) → h.leaving ≡ ids → IsValid max h → IsValid max (leave h)
unfolding leave close_assoc
leave_from max h [] e v =
    let same : leave h ≡ h = ground (arith, e) in subst (IsValid max) (sym same) v
leave_from max h (id ∷ rest) e v =
    let left : StillLeaving (id ∷ rest) h = subst (λ l. StillLeaving l h) e v.leaving in
    elim (Option-cases (lookup_id id h.assocs)) [
      | inl f ↦
          let same : leave h ≡ record h { leaving = rest } = ground (arith, e, f) in
          subst (IsValid max) (sym same) (record {
            unique = v.unique;
            new_id = v.new_id;
            capped = v.capped;
            held = v.held;
            leaving = elim left [
              | inl live ↦ inl live
              | inr l ↦ inr (rest-IsLeaving id rest h.assocs l f)
            ];
          })
      | inr p ↦
          let (a, f) = p in
          let same : leave h ≡ without id a rest h = ground (arith, e, f) in
          let still : StillLeaving rest (record h { assocs = erase_id id h.assocs }) = elim left [
            | inl live ↦ inl live
            | inr l ↦ inr (
                rest-IsLeaving id rest (erase_id id h.assocs)
                  (erase_id-All (IsLeaving (id ∷ rest)) id h.assocs l)
                  (ground (arith, lookup_id-erase_id id id h.assocs)))
          ] in
          subst (IsValid max) (sym same) (without_keeps max id a rest h v f still)
    ]

leave_keeps : (max : ℕ) (h : Hub) → IsValid max h → IsValid max (leave h)
leave_keeps max h v = leave_from max h h.leaving refl v

step_keeps : (max : ℕ) (s : Step) (h : Hub) → IsValid max h → IsValid max (step max s h)
unfolding step
step_keeps max (opens id dials writable) h v = elim (Option-cases h.opening) [
  | inl e ↦
      let same : (if is_some h.opening then h else open_assoc max id dials writable h)
          ≡ open_assoc max id dials writable h =
        ground (arith, e) in
      subst (IsValid max) (sym same) (open_assoc_keeps max id dials writable h e v)
  | inr p ↦
      let (o, e) = p in
      let same : (if is_some h.opening then h else open_assoc max id dials writable h) ≡ h =
        ground (arith, e) in
      subst (IsValid max) (sym same) v
]
step_keeps max (enters now writable) h v = enter_assoc_keeps max now writable h v
step_keeps max (writes id now sends writable) h v = write_local_keeps max id now sends writable h v
step_keeps max (closes id notify writable) h v = close_assoc_keeps max id notify writable h v
step_keeps max (reaps now idle writable) h v =
    close_each_keeps max (stale now idle h.assocs) true writable h v
step_keeps max shuts h v = shut_keeps max h v
step_keeps max leaves h v = leave_keeps max h v

run_keeps : (max : ℕ) (ss : List Step) (h : Hub) → IsValid max h → IsValid max (run_steps max ss h)
run_keeps max [] h v = v
run_keeps max (s ∷ ss) h v = run_keeps max ss (step max s h) (step_keeps max s h v)

-- After every sequence of steps of a new UDP hub of the Agent, no id stands twice, the
-- associations with the one that is being opened stay within the limit, a local connection is
-- open exactly where one of these holds it, and once the hub is closed every association left is
-- one that closeAll still has to close.
pub run_steps-IsValid : (max : ℕ) (ss : List Step) → IsValid max (run_steps max ss new_hub)
run_steps-IsValid max ss = run_keeps max ss new_hub (new_hub-IsValid max)

count_none : (cs : List ℕ) → ((c : ℕ) → count c cs ≡ 0) → cs ≡ []
count_none [] h = refl
count_none (c ∷ cs) h = absurd (ground (arith, h c))

none_left : (m : List (ℕ × Assoc)) → All (IsLeaving []) m → m ≡ []
none_left [] h = refl
none_left (e ∷ m) h = absurd (ground (arith, h.0))

-- A UDP hub of the Agent that is closed, has no association left to close and none being opened
-- has no association and no open local connection, whatever came before.
pub run_closes_all :
    (max : ℕ) (ss : List Step)
    → (run_steps max ss new_hub).closed ≡ true
    → (run_steps max ss new_hub).leaving ≡ []
    → (run_steps max ss new_hub).opening ≡ none
    → ((run_steps max ss new_hub).assocs ≡ []) × ((run_steps max ss new_hub).open_conns ≡ [])
run_closes_all max ss shut_now through idle =
    let h = run_steps max ss new_hub in
    let v = run_steps-IsValid max ss in
    let gone : h.assocs ≡ [] = elim (v.leaving) [
      | inl live ↦ absurd (ground (arith, live, shut_now))
      | inr l ↦ none_left h.assocs (subst (λ ids. All (IsLeaving ids) h.assocs) through l)
    ] in
    (gone, count_none h.open_conns (λ c. ground (arith, v.held c, gone, idle)))
