-- ===== src/Node/Follows.antt =====
-- Code that has its effects in a fixed order and stops at the first failure.
use mathlib.Core.List.{append_assoc}
use substrate_fabric_integra.Base.{
  ⊤, ◌≡◌, refl, sym, subst, fun_ext, ◌∙◌, ap, Bool, true, false, List, [], ◌∷◌, ◌++◌, if◌then◌else◌,
}
use substrate_fabric_integra.Base.Effect.{Result, ok, err}
use substrate_fabric_integra.Node.Trace.{Effect, Trace}
use substrate_fabric_integra.Node.Host.{
  Types, M, Fault, service, command_line, ◌>>=◌, ◌>>◌, pure, raise, try_service, try_cli, emit,
}

module _ {E A : Type 0} where
  -- The effects `xs`, the latest first, were all had by a success, and up to some point by a failure.
  abbrev pub Ends : List Effect → Trace → Result E A × Trace → Type 0
  Ends xs past (ok _, now) = now ≡ xs ++ past
  Ends xs past (err _, now) =
      (left : List Effect) × (done : List Effect) × (xs ≡ left ++ done) × (now ≡ done ++ past)

  Ends-append :
      (xs ys : List Effect) (past now : Trace) (r : Result E A × Trace)
      → now ≡ xs ++ past
      → Ends ys now r
      → Ends (ys ++ xs) past r
  Ends-append xs ys past now (ok a, _) first rest =
      rest ∙ ap (◌++◌ ys) first ∙ sym (append_assoc ys xs past)
  Ends-append xs ys past now (err e, _) first (left, done, split, moved) = (
    left,
    done ++ xs,
    rw split (append_assoc left done xs),
    moved ∙ ap (◌++◌ done) first ∙ sym (append_assoc done xs past),
  )

-- At every time the code has the effects `xs`, the latest first, or fails on the way.
pub record Follows (T : Types) {A : Type 0} (xs : List Effect) (m : M T A) : Type 0 where
  pub ends : (past : Trace) → Ends xs past (m past)

module _ {T : Types} where
  -- One piece of code after another.
  pub Follows-bind :
      {A B : Type 0} {xs ys : List Effect} {m : M T A} {k : A → M T B}
      → Follows T xs m
      → ((a : A) → Follows T ys (k a))
      → Follows T (ys ++ xs) (m >>= k)
  unfolding ◌>>=◌
  Follows-bind {A} {B} {xs} {ys} {m} {k} h next = record {
    ends = λ past. go past (m past) (h.ends past);
  }
    where
      go :
          (past : Trace) (r : Result (Fault T) A × Trace)
          → Ends xs past r
          → Ends {E = Fault T} {A = B}
              (ys ++ xs)
              past
              (elim r.0 [ ok a ↦ k a r.1 | err e ↦ (err e, r.1) ])
      go past (ok a, now) first = Ends-append xs ys past now (k a now) first ((next a).ends now)
      go past (err e, now) (left, done, split, moved) =
          (ys ++ left, done, rw split (sym (append_assoc ys left done)), moved)

  pub Follows-then :
      {A B : Type 0} {xs ys : List Effect} {m : M T A} {k : M T B}
      → Follows T xs m
      → Follows T ys k
      → Follows T (ys ++ xs) (m >> k)
  unfolding ◌>>◌
  Follows-then h next = Follows-bind h (λ _. next)

  -- The effects written another way.
  pub Follows-cast :
      {A : Type 0} {xs ys : List Effect} {m : M T A} → Follows T xs m → xs ≡ ys → Follows T ys m
  Follows-cast {m} h e = subst (λ zs. Follows T zs m) e h

  pub Follows-pure : {A : Type 0} (a : A) → Follows T [] (pure a)
  unfolding pure
  Follows-pure a = record { ends = λ past. refl }

  pub Follows-raise : {A : Type 0} (e : Fault T) → Follows T {A = A} [] (raise e)
  unfolding raise
  Follows-raise e = record { ends = λ past. ([], [], refl, refl) }

  pub Follows-emit : (e : Effect) → Follows T (e ∷ []) (emit e)
  unfolding emit
  Follows-emit e = record { ends = λ past. refl }

  pub Follows-try_service :
      {A : Type 0} (e : Effect) (f : Trace → Result T.ServiceError A)
      → Follows T (e ∷ []) (try_service e f)
  unfolding try_service
  Follows-try_service {A} e f = record { ends = λ past. go past (f past) }
    where
      go :
          (past : Trace) (r : Result T.ServiceError A)
          → Ends {E = Fault T} {A = A}
              (e ∷ [])
              past
              (elim r [ ok a ↦ (ok a, e ∷ past) | err x ↦ (err (service x), e ∷ past) ])
      go past (ok a) = refl
      go past (err x) = ([], e ∷ [], refl, refl)

  pub Follows-try_cli :
      {A : Type 0} (e : Effect) (f : Trace → Result T.CliError A) → Follows T (e ∷ []) (try_cli e f)
  unfolding try_cli
  Follows-try_cli {A} e f = record { ends = λ past. go past (f past) }
    where
      go :
          (past : Trace) (r : Result T.CliError A)
          → Ends {E = Fault T} {A = A}
              (e ∷ [])
              past
              (elim r [ ok a ↦ (ok a, e ∷ past) | err x ↦ (err (command_line x), e ∷ past) ])
      go past (ok a) = refl
      go past (err x) = ([], e ∷ [], refl, refl)

  -- What follows a call needs to be known only for the values that the call can return.
  pub Follows-bind_try_cli :
      {A B : Type 0} (e : Effect) {ys : List Effect} (f : Trace → Result T.CliError A)
      {k : A → M T B}
      → ((a : A) (past : Trace) → f past ≡ ok a → Follows T ys (k a))
      → Follows T (ys ++ (e ∷ [])) (try_cli e f >>= k)
  unfolding try_cli ◌>>=◌
  Follows-bind_try_cli {A} {B} e {ys} f {k} next = record { ends = λ past. go past (f past) refl }
    where
      go :
          (past : Trace) (r : Result T.CliError A)
          → f past ≡ r
          → let r' : Result (Fault T) A × Trace = elim r [
            | ok a ↦ (ok a, e ∷ past)
            | err x ↦ (err (command_line x), e ∷ past)
          ] in
            Ends {E = Fault T} {A = B}
              (ys ++ (e ∷ []))
              past
              (elim r'.0 [ ok a ↦ k a r'.1 | err x ↦ (err x, r'.1) ])
      go past (ok a) answer =
          Ends-append (e ∷ []) ys past (e ∷ past) (k a (e ∷ past)) refl
            ((next a past answer).ends (e ∷ past))
      go past (err x) _ = (ys, e ∷ [], refl, refl)

  pub Follows-if :
      (b : Bool) {xs : List Effect} {m : M T ⊤}
      → Follows T xs m
      → Follows T (if b then xs else []) (if b then m else pure tt)
  Follows-if true h = h
  Follows-if false h = Follows-pure tt

  -- A value that is known goes on at once.
  pub Follows-pure_bind :
      {A B : Type 0} {xs : List Effect} (a : A) (k : A → M T B)
      → Follows T xs (k a)
      → Follows T xs (pure a >>= k)
  unfolding pure ◌>>=◌
  Follows-pure_bind a k h = record { ends = h.ends }

  >>=-pure_bind :
      {A B C : Type 0} (m : M T A) (g : A → B) (k : B → M T C)
      → ((m >>= λ a. pure (g a)) >>= k) ≡ (m >>= λ a. k (g a))
  unfolding pure ◌>>=◌
  >>=-pure_bind {A} {B} {C} m g k = fun_ext λ past. go (m past)
    where
      go :
          (r : Result (Fault T) A × Trace)
          → let r' : Result (Fault T) B × Trace = elim r.0 [
            | ok a ↦ (ok (g a), r.1)
            | err e ↦ (err e, r.1)
          ] in
            let r'' : Result (Fault T) C × Trace = elim r.0 [
              | ok a ↦ k (g a) r.1
              | err e ↦ (err e, r.1)
            ] in
            ◌≡◌ {A = Result (Fault T) C × Trace}
              (elim r'.0 [ ok b ↦ k b r'.1 | err e ↦ (err e, r'.1) ])
              r''
      go (ok a, now) = refl
      go (err e, now) = refl

  pub Follows-bind_pure :
      {A B C : Type 0} {xs ys : List Effect} {m : M T A} {g : A → B} (k : B → M T C)
      → Follows T xs m
      → ((a : A) → Follows T ys (k (g a)))
      → Follows T (ys ++ xs) ((m >>= λ a. pure (g a)) >>= k)
  Follows-bind_pure {m} {g} k h next = rw (>>=-pure_bind m g k) (Follows-bind h next)

  -- A test that ends the code with an error, or with one of two.
  pub Follows-if_raise :
      {A : Type 0} (b : Bool) (e : Fault T) {xs : List Effect} {m : M T A}
      → Follows T xs m
      → Follows T (if b then xs else []) (if b then m else raise e)
  Follows-if_raise true e h = h
  Follows-if_raise false e h = Follows-raise e

  pub Follows-raises :
      {A : Type 0} (b : Bool) (e e' : Fault T)
      → Follows T {A = A} [] (if b then raise e else raise e')
  Follows-raises true e e' = Follows-raise e
  Follows-raises false e e' = Follows-raise e'
