-- ===== src/Settings/Seed.antt =====
-- Seeding the settings from the environment.
use dogecade.Common.{
  Bool-cases, List, String, ap, eq_iff, inl, inr, refl, str_eq, subst, sym, true, ℕ, ◌∙◌, ◌≡◌, ◌⊎◌,
}
use dogecade.Keyring.Digits.{value}
use dogecade.Store.{Change, Db, Moves, World, exec, next, query_from, then-Moves}
use dogecade.Settings.Decimal.{is_empty}
use dogecade.Settings.{
  NodeRpcConfig, get_string, seed_from_env, set_string, set_string_if_absent, text_of,
}
use dogecade.Settings.RoundTrip.{text_of-upsert_other}

-- Every key that has a text keeps it.
abbrev pub Keeps : Db → Db → Type 0
Keeps d d' =
    (key : String)
    → (is_empty (text_of key d.settings) ≡ true)
      ⊎ (text_of key d'.settings ≡ text_of key d.settings)

-- A key without a text may be given one, and keeps it from then on.
abbrev keeps : Change
keeps = record {
  Allows = Keeps;
  stays = λ d key. inr refl;
  joins = λ a b c h g key. elim (h key) [
    | inl e ↦ inl e
    | inr e ↦ elim (g key) [ inl e' ↦ inl (ap is_empty (sym e) ∙ e') | inr e' ↦ inr (e' ∙ e) ]
  ];
}

set_string-Keeps :
    (key : String) (value : List ℕ) (w : World)
    → is_empty (text_of key w.db.settings) ≡ true
    → Keeps w.db (set_string key value w).1.db
unfolding set_string exec
set_string-Keeps key value w absent = elim (Bool-cases (w.fails w.count)) [
  | inl down ↦ rw down (λ other. inr refl)
  | inr up ↦ rw up λ other. elim (Bool-cases (str_eq key other)) [
    | inl e ↦
        inl (subst (λ k. is_empty (text_of k w.db.settings) ≡ true) ((eq_iff key other).0 e) absent)
    | inr e ↦ inr (text_of-upsert_other key other value w.db.settings e)
  ]
]

set_string_if_absent-Keeps :
    (key : String) (value : List ℕ) → Moves keeps (set_string_if_absent key value)
unfolding set_string_if_absent get_string
set_string_if_absent-Keeps key value w = elim (Bool-cases (is_empty value)) [
  | inl e ↦ rw e (keeps.stays w.db)
  | inr e ↦ rw e (
      query_from keeps _ _ w (elim (Bool-cases (is_empty (text_of key w.db.settings))) [
        | inl absent ↦ rw absent (set_string-Keeps key value (next w) absent)
        | inr there ↦ rw there (keeps.stays w.db)
      ]))
]

-- Seeding from the environment overwrites no setting that has a text, whatever the environment
-- says and whatever statement fails, whether it answers an error or not.
pub seed_from_env-Keeps : (cfg : NodeRpcConfig) (w : World) → Keeps w.db (seed_from_env cfg w).1.db
unfolding seed_from_env
seed_from_env-Keeps cfg = then-Moves keeps _ _ (set_string_if_absent-Keeps _ _) (
    then-Moves keeps _ _ (set_string_if_absent-Keeps _ _)
      (then-Moves keeps _ _ (set_string_if_absent-Keeps _ _) (set_string_if_absent-Keeps _ _)))
