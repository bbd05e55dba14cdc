-- ===== src/Resolver/Examples.antt =====
-- Tests of the resolver with a small scorer, and its theorems at concrete inputs.
use latest_poseidon.Prelude.{
  ◌≡◌, refl, String, str_eq, true, false, List, [], ◌∷◌, if◌then◌else◌, Permᴰ, keep, sort_by,
}
use latest_poseidon.Resolver.{TextTools, resolved, exact, resolve, exact_matches, is_exact}
use latest_poseidon.Resolver.Order.{resolve-Perm}
use latest_poseidon.Resolver.Sound.{IsAnswer, resolve-IsAnswer}

-- Texts are compared as they are; "northstar" scores 0.9 against "Northstar Lines" and 0.5 otherwise.
abbrev pub demo_tools : TextTools
demo_tools = record {
  casefold = λ s. s;
  words = λ s. s ∷ [];
  score = λ phrase value. if str_eq value "Northstar Lines" then 900000 else 500000;
}

abbrev pub demo_values : List String
demo_values = "Meridian" ∷ "Northstar Lines" ∷ []

demo_exact :
    resolve demo_tools "Meridian" demo_values "customer" true
    ≡ resolved "Meridian" "Meridian" 1000000 exact
unfolding resolve exact_matches is_exact keep sort_by
demo_exact = refl

resolve-IsAnswer_example :
    IsAnswer demo_tools "northstar" demo_values "customer" true
      (resolve demo_tools "northstar" demo_values "customer" true)
resolve-IsAnswer_example = resolve-IsAnswer demo_tools "northstar" demo_values "customer" true

resolve-Perm_example :
    resolve demo_tools "northstar" demo_values "port" false
    ≡ resolve demo_tools "northstar" ("Northstar Lines" ∷ "Meridian" ∷ []) "port" false
resolve-Perm_example = resolve-Perm demo_tools "northstar" (Permᴰ.swap refl refl) "port" false
