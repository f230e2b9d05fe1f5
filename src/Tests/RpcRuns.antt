-- ===== src/Tests/RpcRuns.antt =====
-- The RPC module over modules that are lists of methods.
use substrate_fabric_integra.Base.{
  ◌≡◌, refl, if◌then◌else◌, String, ◌<>◌, Bool, true, false, ◌&&◌, ◌||◌, not, inl, inr, ap, sym,
  ◌∙◌, List, [], ◌∷◌, ◌++◌, arith,
}
use substrate_fabric_integra.Base.Effect.{ok, err}
use substrate_fabric_integra.Base.Texts.{absent, str_eq_cases}
use text.Mathlib.TextEquality.{eq_iff}
use substrate_fabric_integra.Rpc
use substrate_fabric_integra.Rpc.{RpcHost, create_full}
use substrate_fabric_integra.Service.RpcBuilder.{rpc_extensions_builder, rpc_extensions_builder_lem}

-- Whether two lists of methods share none.
abbrev apart : List String → List String → Bool
apart [] ys = true
apart (x ∷ xs) ys = absent x ys && apart xs ys

abbrev has : List String → String → Bool
has xs name = not (absent name xs)

has-append :
    (xs ys : List String) (name : String) → has (xs ++ ys) name ≡ (has xs name || has ys name)
has-append [] ys name = refl
has-append (x ∷ xs) ys name = ground (arith, has-append xs ys name)

apart-has :
    (xs ys : List String)
    → apart xs ys ≡ true
    → (name : String) → has xs name ≡ true
    → has ys name ≡ false
apart-has [] ys h name found = absurd (ground arith)
apart-has (x ∷ xs) ys h name found = elim (str_eq_cases name x) [
  | inl same ↦ rw same (ground arith)
  | inr other ↦ apart-has xs ys (ground arith) name (ground (arith, eq_iff name x))
]

has-apart :
    (xs ys : List String)
    → ((name : String) → has xs name ≡ true → has ys name ≡ false)
    → apart xs ys ≡ true
has-apart [] ys h = refl
has-apart (x ∷ xs) ys h =
    let rest = has-apart xs ys (λ name found. h name (ground arith)) in
    let first = h x (ground (arith, eq_iff x x)) in ground (arith, rest, first)

abbrev system : List String
system = "system_accountNextIndex" ∷ "system_dryRun" ∷ []

abbrev lists : RpcHost
lists = record {
  Client = Unit {0};
  Pool = Unit {0};
  DenyUnsafe = Bool;
  Error = String;
  Module = List String;
  empty = [];
  has_method = has;
  merge = λ a b. if apart a b then ok (a ++ b) else err "Method: already exists";
  system_rpc = λ _ _ _. system;
  payment_rpc = λ _. "payment_queryInfo" ∷ [];
}

merge-has :
    (a b c : List String) (name : String)
    → lists.merge a b ≡ ok c
    → has c name ≡ (has a name || has b name)
merge-has a b c name h =
    let same : a ++ b ≡ c = ground arith in ap (λ xs. has xs name) (sym same) ∙ has-append a b name

lists-IsLawful : Rpc.IsLawful lists
lists-IsLawful = record {
  has_method-empty = λ name. refl;
  has_method-merge = λ a b c name h. merge-has a b c name h;
  merge-disjoint =
      λ a b. (λ (c, h). apart-has a b (ground arith), λ h. (a ++ b, rw (has-apart a b h) refl));
}

abbrev both_methods : List String
both_methods = "system_accountNextIndex" ∷ "system_dryRun" ∷ "payment_queryInfo" ∷ []

rpc_extensions_builder_lem_example :
    (n : List String) × (rpc_extensions_builder lists {Subscription = String}
        (λ e. "RPC: " <> e)
        tt
        tt
        false
        "second"
      ≡ ok n)
    × ((name : String) → has n name ≡ (has system name || has ("payment_queryInfo" ∷ []) name))
unfolding rpc_extensions_builder create_full
rpc_extensions_builder_lem_example =
    rpc_extensions_builder_lem lists {Subscription = String} (λ e. "RPC: " <> e) lists-IsLawful tt
      tt (λ deny deny' name. refl) true false "first" "second" both_methods refl
