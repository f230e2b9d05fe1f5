-- ===== src/Base/Outcome.antt =====
-- Chains of fallible steps with no state: `?` on a `Result`, and `expect`, which panics.
use Prim.Native.String.{String}
use mathlib.Core.Path.{◌≡◌, refl, sym, ◌∙◌, ap}
use mathlib.Core.Option.{Option, none, some}
use mathlib.Core.Logic.{◌≢◌}
use mathlib.Core.List.{List, [], ◌∷◌, Memᴰ}
use native.Mathlib.Omega.{arith}
use substrate_fabric_integra.Base.Lists.{All, Distinct, length}
use substrate_fabric_integra.Base.Effect.{Result, ok, err}

-- A function may return its error, or panic with a message.
pub data Failure (E : Type 0) : Type 0 where
  returned : E → Failure E
  panicked : String → Failure E

infixl 5 ◌>>=◌
abbrev pub ◌>>=◌ {ℓ κ} :
    {E : Type 0} {A : Type ℓ} {B : Type κ} → Result E A → (A → Result E B) → Result E B
ok a >>= f = f a
err e >>= f = err e

module _ {E A : Type 0} where
  abbrev pub expect : Option A → String → Result (Failure E) A
  expect none message = err (panicked message)
  expect (some a) _ = ok a

  -- `o.ok_or_else(|| e)?`
  abbrev pub or_return : Option A → E → Result (Failure E) A
  or_return none e = err (returned e)
  or_return (some a) _ = ok a

pub ok-injective : {E A : Type 0} {a b : A} → ◌≡◌ {A = Result E A} (ok a) (ok b) → a ≡ b
ok-injective h = cc

module _ {E A B : Type 0} where
  -- `vec![f(a), f(b), …]`, from the left, where a call may fail
  abbrev pub for_each : (A → Result E B) → List A → Result E (List B)
  for_each f [] = ok []
  for_each f (a ∷ rest) = do b ← f a; bs ← for_each f rest; ok (b ∷ bs)

  -- The results are those of the items, in order.
  abbrev pub Yields : (A → Result E B) → List A → List B → Type 0
  Yields f [] [] = Unit
  Yields f (a ∷ rest) (b ∷ bs) = (f a ≡ ok b) × Yields f rest bs
  Yields f _ _ = ⊥

  -- If the call succeeds on every item, so does the whole.
  pub for_each-total :
      (f : A → Result E B) (xs : List A)
      → All (λ x. (y : B) × (f x ≡ ok y)) xs
      → (ys : List B) × (for_each f xs ≡ ok ys) × Yields f xs ys
  for_each-total f [] _ = ([], refl, tt)
  for_each-total f (x ∷ xs) ((y, e), h) =
      let (ys, all, each) = for_each-total f xs h in (y ∷ ys, rw (e, all), (e, each))

  -- A call that tells its arguments apart gives different results for different items.
  pub Yields-Distinct :
      (f : A → Result E B) (xs : List A) (ys : List B)
      → ((x x' : A) (y : B) → Memᴰ x xs → Memᴰ x' xs → f x ≡ ok y → f x' ≡ ok y → x ≡ x')
      → Yields f xs ys
      → Distinct xs
      → Distinct ys
  Yields-Distinct f [] [] inj _ _ = tt
  Yields-Distinct f [] (y ∷ ys) inj h _ = absurd h
  Yields-Distinct f (x ∷ xs) [] inj h _ = absurd h
  Yields-Distinct f (x ∷ xs) (y ∷ ys) inj (e, each) (fresh, rest) = (
    apart xs ys (λ z m. m) each fresh,
    Yields-Distinct f xs ys (λ x' x'' y' m n. inj x' x'' y' (Memᴰ.tail m) (Memᴰ.tail n)) each rest,
  )
    where
      apart :
          (xs' : List A) (ys' : List B)
          → ((x' : A) → Memᴰ x' xs' → Memᴰ x' xs)
          → Yields f xs' ys'
          → All (λ x'. x ≢ x') xs'
          → All (λ y'. y ≢ y') ys'
      apart [] [] _ _ _ = tt
      apart [] (_ ∷ _) _ h _ = absurd h
      apart (_ ∷ _) [] _ h _ = absurd h
      apart (x' ∷ xs') (y' ∷ ys') among (e', each') (ne, nes) = (
        (λ same.
            ne
              (inj x x' y (Memᴰ.head refl) (Memᴰ.tail (among x' (Memᴰ.head refl))) e (rw same e'))),
        apart xs' ys' (λ z m. among z (Memᴰ.tail m)) each' nes,
      )

  pub Yields-length :
      (f : A → Result E B) (xs : List A) (ys : List B) → Yields f xs ys → length ys ≡ length xs
  Yields-length f [] [] h = refl
  Yields-length f [] (_ ∷ _) h = absurd h
  Yields-length f (_ ∷ _) [] h = absurd h
  Yields-length f (_ ∷ xs) (_ ∷ ys) (_, h) = omega (arith, Yields-length f xs ys h)

  -- The result of an item is among the results.
  pub Yields-Memᴰ :
      (f : A → Result E B) (xs : List A) (ys : List B) {x : A} {y : B}
      → Yields f xs ys
      → Memᴰ x xs
      → f x ≡ ok y
      → Memᴰ y ys
  Yields-Memᴰ f [] ys h m e = elim m [ ]
  Yields-Memᴰ f (_ ∷ xs) [] h m e = absurd h
  Yields-Memᴰ f (_ ∷ xs) (y' ∷ ys) (e', h) (Memᴰ.head same) e =
      Memᴰ.head (ok-injective (sym e ∙ ap f same ∙ e'))
  Yields-Memᴰ f (_ ∷ xs) (_ ∷ ys) (_, h) (Memᴰ.tail m) e = Memᴰ.tail (Yields-Memᴰ f xs ys h m e)
