-- ===== src/Node/Completes.antt =====
-- Code that ends with one last effect, which cannot fail, and code that cannot fail at all.
use mathlib.Core.List.{append_assoc}
use substrate_fabric_integra.Base.{
  ⊤, ◌≡◌, refl, sym, subst, ◌∙◌, ap, Bool, true, false, List, [], ◌∷◌, ◌++◌, if◌then◌else◌,
}
use substrate_fabric_integra.Base.Effect.{Result, ok, err}
use substrate_fabric_integra.Node.Trace.{Effect, Trace}
use substrate_fabric_integra.Node.Host.{
  Types, M, Fault, ◌>>=◌, ◌>>◌, pure, try_service, try_cli, emit,
}
use substrate_fabric_integra.Node.Follows.{Ends, Follows}

module _ {E A : Type 0} where
  -- A success had the effects `xs`, the latest first, and then `e`; a failure some of `xs`, in their
  -- order, and nothing else.
  abbrev pub EndsBy : Effect → List Effect → Trace → Result E A × Trace → Type 0
  EndsBy e xs past (ok _, now) = now ≡ e ∷ (xs ++ past)
  EndsBy e xs past (err _, now) =
      (left : List Effect) × (done : List Effect) × (xs ≡ left ++ done) × (now ≡ done ++ past)

  EndsBy-append :
      (e : Effect) (xs ys : List Effect) (past now : Trace) (r : Result E A × Trace)
      → now ≡ xs ++ past
      → EndsBy e ys now r
      → EndsBy e (ys ++ xs) past r
  EndsBy-append e xs ys past now (ok a, _) first rest =
      rest ∙ ap (λ zs. e ∷ (ys ++ zs)) first ∙ ap (◌∷◌ e) (sym (append_assoc ys xs past))
  EndsBy-append e xs ys past now (err _, _) first (left, done, split, moved) = (
    left,
    done ++ xs,
    rw split (append_assoc left done xs),
    moved ∙ ap (◌++◌ done) first ∙ sym (append_assoc done xs past),
  )

pub record Completes (T : Types) {A : Type 0} (e : Effect) (xs : List Effect) (m : M T A)
    : Type 0 where
  pub ends : (past : Trace) → EndsBy e xs past (m past)

-- At every time the code succeeds.
pub record Succeeds (T : Types) {A : Type 0} (m : M T A) : Type 0 where
  pub result : (past : Trace) → (a : A) × (now : Trace) × (m past ≡ (ok a, now))

module _ {T : Types} where
  pub Completes-emit : (e : Effect) → Completes T e [] (emit e)
  unfolding emit
  Completes-emit e = record { ends = λ past. refl }

  pub Completes-bind :
      {A B : Type 0} {e : Effect} {xs ys : List Effect} {m : M T A} {k : A → M T B}
      → Follows T xs m
      → ((a : A) → Completes T e ys (k a))
      → Completes T e (ys ++ xs) (m >>= k)
  unfolding ◌>>=◌
  Completes-bind {A} {B} {e} {xs} {ys} {m} {k} h next = record {
    ends = λ past. go past (m past) (h.ends past);
  }
    where
      go :
          (past : Trace) (r : Result (Fault T) A × Trace)
          → Ends xs past r
          → EndsBy {E = Fault T} {A = B} e
              (ys ++ xs)
              past
              (elim r.0 [ ok a ↦ k a r.1 | err x ↦ (err x, r.1) ])
      go past (ok a, now) first = EndsBy-append e xs ys past now (k a now) first ((next a).ends now)
      go past (err x, now) (left, done, split, moved) =
          (ys ++ left, done, rw split (sym (append_assoc ys left done)), moved)

  pub Completes-then :
      {A B : Type 0} {e : Effect} {xs ys : List Effect} {m : M T A} {k : M T B}
      → Follows T xs m
      → Completes T e ys k
      → Completes T e (ys ++ xs) (m >> k)
  unfolding ◌>>◌
  Completes-then h next = Completes-bind h (λ _. next)

  pub Completes-cast :
      {A : Type 0} {e : Effect} {xs ys : List Effect} {m : M T A}
      → Completes T e xs m
      → xs ≡ ys
      → Completes T e ys m
  Completes-cast {e} {m} h same = subst (λ zs. Completes T e zs m) same h

  pub Succeeds-pure : {A : Type 0} (a : A) → Succeeds T (pure a)
  unfolding pure
  Succeeds-pure a = record { result = λ past. (a, past, refl) }

  pub Succeeds-emit : (e : Effect) → Succeeds T (emit e)
  unfolding emit
  Succeeds-emit e = record { result = λ past. (tt, e ∷ past, refl) }

  pub Succeeds-bind :
      {A B : Type 0} {m : M T A} {k : A → M T B}
      → Succeeds T m
      → ((a : A) → Succeeds T (k a))
      → Succeeds T (m >>= k)
  unfolding ◌>>=◌
  Succeeds-bind {A} {B} {m} {k} h next = record {
    result = λ past.
        let (a, now, e) = h.result past in
        let (b, later, e') = (next a).result now in
        (
          b,
          later,
          ap
                (λ (r : Result (Fault T) A × Trace).
                  let out : Result (Fault T) B × Trace = elim r.0 [
                    | ok a ↦ k a r.1
                    | err x ↦ (err x, r.1)
                  ] in
                  out)
                e
              ∙ e',
        );
  }

  pub Succeeds-then :
      {A B : Type 0} {m : M T A} {k : M T B} → Succeeds T m → Succeeds T k → Succeeds T (m >> k)
  unfolding ◌>>◌
  Succeeds-then h next = Succeeds-bind h (λ _. next)

  pub Succeeds-try_service :
      {A : Type 0} (e : Effect) (f : Trace → Result T.ServiceError A)
      → ((past : Trace) → (a : A) × (f past ≡ ok a))
      → Succeeds T (try_service e f)
  unfolding try_service
  Succeeds-try_service e f h = record {
    result = λ past. let (a, answer) = h past in (a, e ∷ past, rw (answer, try_service));
  }

  pub Succeeds-try_cli :
      {A : Type 0} (e : Effect) (f : Trace → Result T.CliError A)
      → ((past : Trace) → (a : A) × (f past ≡ ok a))
      → Succeeds T (try_cli e f)
  unfolding try_cli
  Succeeds-try_cli e f h = record {
    result = λ past. let (a, answer) = h past in (a, e ∷ past, rw (answer, try_cli));
  }

  pub Succeeds-if : (b : Bool) {m : M T ⊤} → Succeeds T m → Succeeds T (if b then m else pure tt)
  Succeeds-if true h = h
  Succeeds-if false h = Succeeds-pure tt

  -- A success that completes is known to the last effect.
  pub EndsBy-ok :
      {A : Type 0} (e : Effect) (xs : List Effect) (past : Trace) {now : Trace} {a : A}
      {r : Result (Fault T) A × Trace}
      → r ≡ (ok a, now)
      → EndsBy e xs past r
      → now ≡ e ∷ (xs ++ past)
  EndsBy-ok e xs past h ends = subst (EndsBy e xs past) h ends

  pub Completes-Follows :
      {A : Type 0} {e : Effect} {xs : List Effect} {m : M T A}
      → Completes T e xs m
      → Follows T (e ∷ xs) m
  Completes-Follows {A} {e} {xs} {m} h = record { ends = λ past. go past (m past) (h.ends past) }
    where
      go :
          (past : Trace) (r : Result (Fault T) A × Trace)
          → EndsBy e xs past r
          → Ends (e ∷ xs) past r
      go past (ok a, now) same = same
      go past (err x, now) (left, done, split, moved) = (e ∷ left, done, ap (◌∷◌ e) split, moved)
