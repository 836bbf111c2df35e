-- ===== src/Context/Outcome/Hidden.antt =====
-- `decrypt_verify` tests the same error twice.
use pygpgme.Base.{ℕ, ◌≡◌, ◌≢◌, refl, true, Option, List, arith}
use pygpgme.Python.State.{Platform, PyState}
use pygpgme.Errors.Convert.{check_error}
use pygpgme.Gpgme.Structs.{SigRaw}
use pygpgme.Gpgme.Engine.{Engine, Handle, Op}
use pygpgme.Context.World.{World, run_op}
use pygpgme.Context.Resources.{data_release}
use pygpgme.Context.Crypt.{decrypt_verify_run}

failed_check : (P : Platform) (err : ℕ) (s : PyState) → err ≢ 0 → (check_error P err s).0 ≡ true
unfolding check_error
failed_check P err s h = ground arith

-- Where gpgme reports an error for `decrypt_verify`, nothing that it says about signatures reaches the
-- caller: with any other signatures the method returns the same and leaves the same state and the
-- same exception, although the code under "annotate exception" would attach them.
decrypt_verify_hides :
    {C : Type 0} (P : Platform) (E : Engine C) (self : ℕ) (others : C → Option (List SigRaw))
    (cipher plain : Handle) (w : World C)
    → (E.perform w.lib (Op.decrypt_verify cipher plain)).0 ≢ 0
    → decrypt_verify_run P (record E { verify_result = others }) self cipher plain w
      ≡ decrypt_verify_run P E self cipher plain w
unfolding decrypt_verify_run run_op
decrypt_verify_hides P E self others cipher plain w h =
    rw
      (failed_check P (E.perform w.lib (Op.decrypt_verify cipher plain)).0
        (data_release self plain
          (data_release self cipher (run_op E (Op.decrypt_verify cipher plain) w).1)).py
        h)
      refl
