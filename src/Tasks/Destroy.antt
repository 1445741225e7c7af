-- ===== src/Tasks/Destroy.antt =====
-- redis_stream_task.py: the loop of `destroy` over the registry that it edits.
use boxify_agent.Prelude.{
  String, ℕ, suc, true, false, not, ◌≡◌, ◌≢◌, ◌≤◌, refl, List, [], ◌∷◌, filterb, ◌==◌, length,
  nat_eq, nat_eq_iff, eq_iff, arith, Bool-cases, inl, inr, ap, ◌∙◌,
}
use boxify_agent.Result.{Error, Result, ok, err, runtime_error}
use boxify_agent.Tasks.{
  Registry, execution_of, cancel, cleanup_registry, done, destroy_loop, destroy,
}
use boxify_agent.Tasks.Cancel.{cancel_lem}

length-filterb-le :
    (id : String) (ks : List String) → length (filterb (λ k. not (k == id)) ks) ≤ length ks
length-filterb-le id [] = omega arith
length-filterb-le id (k ∷ ks) = ground (arith, length-filterb-le id ks)

-- The keys after a `cancel`.
registered-cancel :
    (id : String) (reg : Registry)
    → (cancel id reg).1.registered ≡ filterb (λ k. not (k == id)) reg.registered
unfolding cancel cleanup_registry
registered-cancel id reg = elim (Bool-cases (done id reg)) [
  | inl over ↦ rw over refl
  | inr under_way ↦ rw under_way refl
]

-- `cancel` takes the key out that stands first.
cancel-shorter :
    (id : String) (ids : List String) (reg : Registry)
    → reg.registered ≡ id ∷ ids
    → nat_eq (length (cancel id reg).1.registered) (suc (length ids)) ≡ false
cancel-shorter id ids reg e =
    rw (registered-cancel id reg, e, (eq_iff id id).1 refl)
      (ground (arith, length-filterb-le id ids))

abbrev size_changed : Error
size_changed = runtime_error "dictionary changed size during iteration"

module _ (destroy_runner : String → Result (Unit {0})) where
  destroy_loop_stops :
      (size : ℕ) (ids : List String) (reg : Registry)
      → nat_eq (length reg.registered) size ≡ false
      → destroy_loop destroy_runner size ids reg ≡ (err size_changed, reg)
  unfolding destroy_loop
  destroy_loop_stops size [] reg h = rw h refl
  destroy_loop_stops size (id ∷ ids) reg h = rw h refl

  destroy_loop-first :
      (size : ℕ) (id : String) (ids : List String) (reg : Registry)
      → nat_eq (length reg.registered) size ≡ true
      → destroy_runner id ≡ ok tt
      → destroy_loop destroy_runner size (id ∷ ids) reg
        ≡ destroy_loop destroy_runner size ids (cancel id reg).1
  unfolding destroy_loop
  destroy_loop-first size id ids reg h runs = rw (h, runs) refl

  destroy-raises :
      (id : String) (ids : List String) (reg : Registry)
      → reg.registered ≡ id ∷ ids
      → destroy_runner id ≡ ok tt
      → destroy destroy_runner reg ≡ (err size_changed, (cancel id reg).1)
  unfolding destroy
  destroy-raises id ids reg e runs =
      ap (λ ks. destroy_loop destroy_runner (length ks) ks reg) e
      ∙ (destroy_loop-first (suc (length ids)) id ids reg
            ((nat_eq_iff (length reg.registered) (suc (length ids))).1 (ap (λ ks. length ks) e))
            runs
          ∙ destroy_loop_stops (suc (length ids)) ids (cancel id reg).1
              (cancel-shorter id ids reg e))

  -- With a task registered whose runner is destroyed without an error, `destroy` cancels the task that
  -- was registered first, then raises: the executions of all other tasks are as before.
  pub destroy_lem :
      (id : String) (ids : List String) (reg : Registry)
      → reg.registered ≡ id ∷ ids
      → destroy_runner id ≡ ok tt
      → (destroy destroy_runner reg
          ≡ (err (runtime_error "dictionary changed size during iteration"), (cancel id reg).1))
        × ((j : String)
            → id ≢ j
            → execution_of j (destroy destroy_runner reg).1.tasks ≡ execution_of j reg.tasks)
  destroy_lem id ids reg e runs =
      let raises = destroy-raises id ids reg e runs in
      (
        raises,
        λ j other. ap (λ r. execution_of j r.1.tasks) raises ∙ (cancel_lem id j reg).1.1 other,
      )
