-- ===== src/Errors/Pending.antt =====
-- Which exception is pending after the conversions, and which error a pending exception becomes.
use pygpgme.Base.{
  ℕ, ◌≡◌, refl, ◌≢◌, ap, true, false, Option, none, some, [], ◌∷◌, ◌⊎◌, inl, inr, arith, ◌==◌, List,
  Bool-cases, Option-cases, ==_iff,
}
use pygpgme.Base.Int.{ℤ, pos, to_uint, to_int}
use pygpgme.Python.Value.{Value, ExcType, gpgme_error, os_error, Exc, Attr, as_int}
use pygpgme.Python.State.{Platform, PyState, long_of, occurred}
use pygpgme.Errors.Convert.{check_error, check_pyerror, error_of}

-- Whatever the memory and the enumerations do, `pygpgme_check_error` reports an error exactly for
-- values other than 0; then an exception is pending, and for 0 nothing has changed.
check_error-occurred :
    (P : Platform) (err : ℕ) (s : PyState)
    → ((check_error P err s ≡ (false, s)) × (err ≡ 0))
      ⊎ (((check_error P err s).0 ≡ true) × (occurred (check_error P err s).1 ≡ true) × (err ≢ 0))
unfolding check_error
check_error-occurred P err s = elim (Bool-cases (err == 0)) [
  | inl e ↦ inl (rw e refl, (==_iff err 0).0 e)
  | inr e ↦ inr (ground arith)
]

-- The numbers that an exception carries: the two ints of a `GpgmeError`, or that of an `OSError`.
pub data Numbers (k : ExcType) (args : Option (List Value)) : Type 0 where
  two :
      {source code : Value} {rest : List Value} (i j : ℤ)
      → k ≡ gpgme_error
      → args ≡ some (source ∷ code ∷ rest)
      → as_int source ≡ some i
      → as_int code ≡ some j
      → Numbers k args
  one :
      {source : Value} {rest : List Value} (i : ℤ)
      → k ≡ os_error
      → args ≡ some (source ∷ rest)
      → as_int source ≡ some i
      → Numbers k args

-- The error that those numbers stand for.
abbrev pub number : {k : ExcType} {args : Option (List Value)} → Platform → Numbers k args → ℕ
number P (two i j _ _ _ _) = P.err_make (to_uint (long_of i)) (to_uint (long_of j))
number P (one i _ _ _) = P.code_from_errno (to_int (long_of i))

-- The error that an exception stands for: its numbers', or the general one if it has none.
abbrev pub Means : Platform → ExcType → Option (List Value) → ℕ → Type 0
Means P k args err =
    ((n : Numbers k args) × (err ≡ number P n)) ⊎ ((¬ Numbers k args) × (err ≡ P.err_general))

error_of-Means :
    (P : Platform) (k : ExcType) (args : Option (List Value)) → Means P k args (error_of P k args)
unfolding error_of
error_of-Means P k none = inr (λ n. elim n [ two _ _ _ e _ _ ↦ cc | one _ _ e _ ↦ cc ], refl)
error_of-Means P k (some []) = inr (λ n. elim n [ two _ _ _ e _ _ ↦ cc | one _ _ e _ ↦ cc ], refl)
error_of-Means P gpgme_error (some (source ∷ [])) =
    inr (λ n. elim n [ two _ _ _ e _ _ ↦ cc | one _ d e _ ↦ cc ], refl)
error_of-Means P gpgme_error (some (source ∷ code ∷ rest)) = elim (Option-cases (as_int source)) [
  | inl p ↦ inr (λ n. elim n [ two _ _ _ e f _ ↦ cc | one _ d e _ ↦ cc ], rw p refl)
  | inr (i, p) ↦ elim (Option-cases (as_int code)) [
    | inl q ↦ inr (λ n. elim n [ two _ _ _ e _ f ↦ cc | one _ d e _ ↦ cc ], rw (p, q) refl)
    | inr (j, q) ↦ inl (two i j refl refl p q, rw (p, q) refl)
  ]
]
error_of-Means P os_error (some (source ∷ rest)) = elim (Option-cases (as_int source)) [
  | inl p ↦ inr (λ n. elim n [ two _ _ d e _ _ ↦ cc | one _ d e f ↦ cc ], rw p refl)
  | inr (i, p) ↦ inl (one i refl refl p, rw p refl)
]
error_of-Means P k (some (source ∷ rest)) =
    inr (λ n. elim n [ two _ _ d e _ _ ↦ cc | one _ d e f ↦ cc ], refl)

-- `pygpgme_check_pyerror` returns 0 and changes nothing where no exception is pending. Else it
-- returns the error that the exception stands for and leaves none pending: `gpgme_err_make` of the
-- two ints of a `GpgmeError`, the error of the number of an `OSError`, and the general error where
-- the exception carries no such numbers.
pub check_pyerror-Means :
    (P : Platform) (s : PyState)
    → ((s.exc ≡ none) × (check_pyerror P s ≡ (0, s)))
      ⊎ ((e : Exc) × (s.exc ≡ some e)
          × Means P e.kind e.args (check_pyerror P s).0
          × ((check_pyerror P s).1 ≡ record s { exc = none }))
unfolding check_pyerror
check_pyerror-Means P s = elim (Option-cases s.exc) [
  | inl q ↦ inl (q, rw q refl)
  | inr (e, q) ↦ inr (e, q, rw q (error_of-Means P e.kind e.args), rw q refl)
]

-- A `GpgmeError` with the code 0 is lost: where `gpgme_err_make` makes 0 of the code 0, as
-- libgpg-error documents, the result is "no error", and the exception is gone.
check_pyerror_loses :
    (P : Platform) (s : PyState) (source code : Value) (rest : List Value) (attrs : List Attr)
    (i : ℤ)
    → ((src : ℕ) → P.err_make src 0 ≡ 0)
    → as_int source ≡ some i
    → as_int code ≡ some (pos 0)
    → s.exc
      ≡ some (record { kind = gpgme_error; args = some (source ∷ code ∷ rest); attrs = attrs })
    → check_pyerror P s ≡ (0, record s { exc = none })
unfolding check_pyerror error_of
check_pyerror_loses P s source code rest attrs i h p q e =
    rw (e, p, q) (ap (λ n. (n, record s { exc = none })) (h (to_uint (long_of i))))
