-- ===== src/Settings/RoundTrip.antt =====
-- What is set is read back, and no setting disturbs another.
use dogecade.Common.{
  Bool-cases, List, Option, Option-cases, String, [], arith, eq_iff, eq_refl, false, if◌then◌else◌,
  inl, inr, none, pos, refl, some, str_eq, subst, suc, sym, ℕ, ℤ, ◌∷◌, ◌≡◌, ◌⊎◌,
}
use dogecade.Keyring.Digits.{value}
use dogecade.Store.{
  Action, AllOrNothing, Db, IsReadOnly, Result, World, bad_setting, calm, db_failure, err, exec,
  map_AllOrNothing, next, no_change, ok, or_raise, query-Moves, statements,
}
use dogecade.Settings.Decimal.{
  IsInt64, format_int, format_int-nonempty, is_empty, parse_int, parse_int-format_int,
}
use dogecade.Settings.{
  get_chain_cursor, get_direct_pay_max_credits_per_tx, get_direct_pay_rotate_after_uses,
  get_direct_pay_rotate_interval_hours, get_min_confirmations, get_number, get_relay_max_attempts,
  get_string, get_zero_conf_max_koinu, key_chain_cursor, key_direct_pay_max_credits_per_tx,
  key_direct_pay_rotate_after_uses, key_direct_pay_rotate_interval_hours, key_min_confirmations,
  key_relay_max_attempts, key_zero_conf_max_koinu, set_chain_cursor, set_string, text_of, upsert,
}

-- What the getter of a number owes: the default for the empty text, or the number of the text.
abbrev pub number_in : String → ℤ → Db → Result ℤ
number_in key default d =
    let value = text_of key d.settings in
    if is_empty value
    then ok default
    else elim (parse_int value) [ none ↦ err bad_setting | some z ↦ ok z ]

-- Reading a number changes nothing, and gives what is owed.
pub get_number_lem :
    (key : String) (default : ℤ) (w : World)
    → AllOrNothing w.db
        (λ z d'. (d' ≡ w.db) × (number_in key default w.db ≡ ok z))
        (get_number key default w)
unfolding get_number get_string statements
get_number_lem key default w = elim (Bool-cases (w.fails w.count)) [
  | inl down ↦ rw (down, get_number) refl
  | inr up ↦ ground arith
]

-- What reading a number comes to, the failure of its statement included.
pub get_number_read :
    (key : String) (default : ℤ) (w : World)
    → get_number key default w
      ≡ ((if w.fails w.count then err db_failure else number_in key default w.db), next w)
unfolding get_number get_string statements
get_number_read key default w = elim (Bool-cases (w.fails w.count)) [
  | inl down ↦ rw down refl
  | inr up ↦ rw up (elim (Bool-cases (is_empty (text_of key w.db.settings))) [
    | inl e ↦ rw e refl
    | inr e ↦ rw e (parsed (parse_int (text_of key w.db.settings)))
  ])
]
  where
    parsed :
        (o : Option ℤ)
        → or_raise o bad_setting (next w)
          ≡ ((elim o [ none ↦ err bad_setting | some z ↦ ok z ]), next w)
    parsed none = refl
    parsed (some z) = refl

pub get_relay_max_attempts_read :
    (w : World)
    → get_relay_max_attempts w ≡ (
      (if w.fails w.count then err db_failure else number_in key_relay_max_attempts (pos 5) w.db),
      next w,
    )
unfolding get_relay_max_attempts
get_relay_max_attempts_read w = get_number_read _ _ w

pub get_direct_pay_rotate_interval_hours_read :
    (w : World)
    → get_direct_pay_rotate_interval_hours w ≡ (
      (if w.fails w.count
          then err db_failure
          else number_in key_direct_pay_rotate_interval_hours (pos 0) w.db),
      next w,
    )
unfolding get_direct_pay_rotate_interval_hours
get_direct_pay_rotate_interval_hours_read w = get_number_read _ _ w

pub get_direct_pay_rotate_after_uses_read :
    (w : World)
    → get_direct_pay_rotate_after_uses w ≡ (
      (if w.fails w.count
          then err db_failure
          else number_in key_direct_pay_rotate_after_uses (pos 0) w.db),
      next w,
    )
unfolding get_direct_pay_rotate_after_uses
get_direct_pay_rotate_after_uses_read w = get_number_read _ _ w

-- A call that only reads.
abbrev pub Reads : {A : Type 0} → Action A → Type 0
Reads m = (w : World) → AllOrNothing w.db (λ _ d'. (d' ≡ w.db) × Unit {0}) (m w)

get_number-Reads : (key : String) (default : ℤ) → Reads (get_number key default)
get_number-Reads key default w =
    map_AllOrNothing _ _ w.db (get_number key default w) (λ z d' h. (h.0, tt))
      (get_number_lem key default w)

pub get_min_confirmations-Reads : Reads get_min_confirmations
unfolding get_min_confirmations
get_min_confirmations-Reads = get_number-Reads _ _

pub get_direct_pay_rotate_interval_hours-Reads : Reads get_direct_pay_rotate_interval_hours
unfolding get_direct_pay_rotate_interval_hours
get_direct_pay_rotate_interval_hours-Reads = get_number-Reads _ _

pub get_direct_pay_rotate_after_uses-Reads : Reads get_direct_pay_rotate_after_uses
unfolding get_direct_pay_rotate_after_uses
get_direct_pay_rotate_after_uses-Reads = get_number-Reads _ _

pub get_zero_conf_max_koinu-Reads : Reads get_zero_conf_max_koinu
unfolding get_zero_conf_max_koinu
get_zero_conf_max_koinu-Reads = get_number-Reads _ _

pub get_min_confirmations_lem :
    (w : World)
    → AllOrNothing w.db
        (λ z d'. (d' ≡ w.db) × (number_in key_min_confirmations (pos 1) w.db ≡ ok z))
        (get_min_confirmations w)
unfolding get_min_confirmations
get_min_confirmations_lem w = get_number_lem _ _ w

pub get_relay_max_attempts_lem :
    (w : World)
    → AllOrNothing w.db
        (λ z d'. (d' ≡ w.db) × (number_in key_relay_max_attempts (pos 5) w.db ≡ ok z))
        (get_relay_max_attempts w)
unfolding get_relay_max_attempts
get_relay_max_attempts_lem w = get_number_lem _ _ w

pub text_of-upsert :
    (key : String) (value : List ℕ) (rows : List (String × List ℕ))
    → text_of key (upsert key value rows) ≡ value
text_of-upsert key value [] = rw (eq_refl key) refl
text_of-upsert key value ((k, v) ∷ rest) = elim (Bool-cases (str_eq k key)) [
  | inl e ↦ rw (e, e) refl
  | inr e ↦ rw (e, e) (text_of-upsert key value rest)
]

-- No setting disturbs another: a text under a different key reads as before.
pub text_of-upsert_other :
    (key other : String) (value : List ℕ) (rows : List (String × List ℕ))
    → str_eq key other ≡ false
    → text_of other (upsert key value rows) ≡ text_of other rows
text_of-upsert_other key other value [] h = rw h refl
text_of-upsert_other key other value ((k, v) ∷ rest) h = elim (Bool-cases (str_eq k key)) [
  | inl e ↦
      let same : str_eq k other ≡ false =
        subst (λ x. str_eq x other ≡ false) (sym ((eq_iff k key).0 e)) h in
      rw (e, same) refl
  | inr e ↦ rw (e, text_of-upsert_other key other value rest h) refl
]

-- When no statement fails, a number of 64 bits that has been stored under a key is what the key's
-- getter answers, and the getter of every other key answers as before, whatever the defaults.
pub get_number-set_string :
    (key other : String) (z default default' : ℤ) (d : Db) (n m : ℕ)
    → IsInt64 z
    → str_eq key other ≡ false
    → let d' = (set_string key (format_int z) (calm d n)).1.db in
      ((get_number key default (calm d' m)).0 ≡ ok z)
      × ((get_number other default' (calm d' m)).0 ≡ (get_number other default' (calm d m)).0)
unfolding get_number get_string set_string statements
get_number-set_string key other z default default' d n m range differ = (
  rw
      (
        text_of-upsert key (format_int z) d.settings,
        format_int-nonempty z,
        parse_int-format_int z range,
      )
      refl,
  rw (text_of-upsert_other key other (format_int z) d.settings differ) (ground arith),
)

pub get_direct_pay_max_credits_per_tx_lem :
    (w : World)
    → AllOrNothing w.db
        (λ z d'. (d' ≡ w.db) × (number_in key_direct_pay_max_credits_per_tx (pos 10) w.db ≡ ok z))
        (get_direct_pay_max_credits_per_tx w)
unfolding get_direct_pay_max_credits_per_tx
get_direct_pay_max_credits_per_tx_lem w = get_number_lem _ _ w

-- When no statement fails a number is read in one statement.
pub get_number-calm :
    (key : String) (default z : ℤ) (d : Db) (n : ℕ)
    → number_in key default d ≡ ok z
    → get_number key default (calm d n) ≡ (ok z, calm d (suc n))
unfolding get_number get_string statements
get_number-calm key default z d n h = elim (Bool-cases (is_empty (text_of key d.settings))) [
  | inl e ↦ ground arith
  | inr e ↦ elim (Option-cases (parse_int (text_of key d.settings))) [
    | inl bad ↦ ground arith
    | inr (v, good) ↦ ground arith
  ]
]

pub get_min_confirmations-calm :
    (z : ℤ) (d : Db) (n : ℕ)
    → number_in key_min_confirmations (pos 1) d ≡ ok z
    → get_min_confirmations (calm d n) ≡ (ok z, calm d (suc n))
unfolding get_min_confirmations
get_min_confirmations-calm z d n h = get_number-calm _ _ z d n h

pub get_zero_conf_max_koinu-calm :
    (z : ℤ) (d : Db) (n : ℕ)
    → number_in key_zero_conf_max_koinu (pos 0) d ≡ ok z
    → get_zero_conf_max_koinu (calm d n) ≡ (ok z, calm d (suc n))
unfolding get_zero_conf_max_koinu
get_zero_conf_max_koinu-calm z d n h = get_number-calm _ _ z d n h

-- The cursor of the chain is read as it stands.
pub get_chain_cursor-IsReadOnly : IsReadOnly get_chain_cursor
unfolding get_chain_cursor get_string
get_chain_cursor-IsReadOnly = query-Moves no_change _

-- Either nothing has happened or the cursor, and nothing else, is set.
pub set_chain_cursor_lem :
    (hash : List ℕ) (w : World)
    → ((set_chain_cursor hash w).1.db ≡ w.db)
      ⊎ ((set_chain_cursor hash w).1.db
          ≡ record w.db { settings = upsert key_chain_cursor hash w.db.settings })
unfolding set_chain_cursor set_string exec
set_chain_cursor_lem hash w = elim (Bool-cases (w.fails w.count)) [
  | inl down ↦ rw down (inl refl)
  | inr up ↦ rw up (inr refl)
]

-- When no statement fails the cursor is read, and set, in one statement.
pub get_chain_cursor-calm :
    (d : Db) (n : ℕ)
    → get_chain_cursor (calm d n) ≡ (ok (text_of key_chain_cursor d.settings), calm d (suc n))
unfolding get_chain_cursor get_string statements
get_chain_cursor-calm d n = refl

pub set_chain_cursor-calm :
    (hash : List ℕ) (d : Db) (n : ℕ)
    → (set_chain_cursor hash (calm d n)).1.db
      ≡ record d { settings = upsert key_chain_cursor hash d.settings }
unfolding set_chain_cursor set_string statements
set_chain_cursor-calm hash d n = refl
