-- ===== src/Examples/Retries.antt =====
-- A handler that fails twice.
use event_store.Prelude.{ℕ, zero, suc, ◌≡◌, refl, Result, ok, err, unmet_write_condition}
use event_store.Store.Transactions.{is_unmet_condition, retry_on_error}
use event_store.Store.Transactions.Retrying.{call, Ends, retry_on_error-Ends}

abbrev flaky : ℕ → Result ℕ × ℕ
flaky zero = (ok 5, 0)
flaky (suc n) = (err (unmet_write_condition "taken"), n)

retry_on_error-Ends_example :
    (k : ℕ) × (retry_on_error is_unmet_condition 3 flaky 2 ≡ call flaky k 2)
    × Ends is_unmet_condition flaky 2 2 k
retry_on_error-Ends_example = retry_on_error-Ends is_unmet_condition 3 flaky 2

retry_on_error_run : retry_on_error is_unmet_condition 3 flaky 2 ≡ (ok 5, 0)
unfolding retry_on_error is_unmet_condition
retry_on_error_run = refl
