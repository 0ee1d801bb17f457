-- ===== src/Ledger/Quota/Limits.antt =====
-- The limits of class Policy of app/projection_store.py as quotas.
use plt_converter.Prelude.{ℕ, ◌+◌, ◌≡◌, refl, arith, ◌==◌, ◌&&◌, one_if, when}
use plt_converter.Ledger.Rows.{Ledger, is_parsing, is_rendering}
use plt_converter.Ledger.Policy.{Policy, system_bytes, render_pool_bytes}
use plt_converter.Ledger.Disk.Promises.{promised, promised_to, promised_by}
use plt_converter.Ledger.Admission.{
  owns, holds, is_live_upload, owner_documents, owner_source, owner_derived,
}
use plt_converter.Ledger.Quota.{Quota, charged, IsLawful}

abbrev pub disk : Quota
disk = record { per_session = promised_to; per_lease = promised_by }

abbrev pub documents : ℕ → Quota
documents o = record {
  per_session = λ s. one_if (owns o s);
  per_lease = λ r. one_if (is_live_upload o r);
}

abbrev pub source : ℕ → Quota
source o = record {
  per_session = λ s. when (owns o s) s.source_bytes;
  per_lease = λ r. when (is_live_upload o r) r.source_budget;
}

abbrev pub derived : ℕ → Quota
derived o = record {
  per_session = λ s. when (owns o s) s.derived_bytes;
  per_lease = λ r. when (holds o r) r.derived_budget;
}

abbrev pub parsing : Quota
parsing = record { per_session = λ s. 0; per_lease = λ r. one_if (is_parsing r.kind) }

abbrev pub rendering : Quota
rendering = record { per_session = λ s. 0; per_lease = λ r. one_if (is_rendering r.kind) }

abbrev pub owner_rendering : ℕ → Quota
owner_rendering o = record {
  per_session = λ s. 0;
  per_lease = λ r. one_if (is_rendering r.kind && r.owner == o);
}

pub disk-IsLawful : IsLawful disk
disk-IsLawful = record {
  reset = λ s e g m. omega arith;
  retired = λ s. omega arith;
  uncharged = λ c s. omega arith;
  revoked = λ r. omega arith;
  launched = λ r p i v b. omega arith;
}

pub documents-IsLawful : (o : ℕ) → IsLawful (documents o)
documents-IsLawful o = record {
  reset = λ s e g m. omega arith;
  retired = λ s. omega arith;
  uncharged = λ c s. omega arith;
  revoked = λ r. ground arith;
  launched = λ r p i v b. omega arith;
}

pub source-IsLawful : (o : ℕ) → IsLawful (source o)
source-IsLawful o = record {
  reset = λ s e g m. omega arith;
  retired = λ s. omega arith;
  uncharged = λ c s. omega arith;
  revoked = λ r. ground arith;
  launched = λ r p i v b. omega arith;
}

pub derived-IsLawful : (o : ℕ) → IsLawful (derived o)
derived-IsLawful o = record {
  reset = λ s e g m. omega arith;
  retired = λ s. omega arith;
  uncharged = λ c s. ground arith;
  revoked = λ r. omega arith;
  launched = λ r p i v b. omega arith;
}

pub parsing-IsLawful : IsLawful parsing
parsing-IsLawful = record {
  reset = λ s e g m. omega arith;
  retired = λ s. omega arith;
  uncharged = λ c s. omega arith;
  revoked = λ r. omega arith;
  launched = λ r p i v b. omega arith;
}

pub rendering-IsLawful : IsLawful rendering
rendering-IsLawful = record {
  reset = λ s e g m. omega arith;
  retired = λ s. omega arith;
  uncharged = λ c s. omega arith;
  revoked = λ r. omega arith;
  launched = λ r p i v b. omega arith;
}

pub owner_rendering-IsLawful : (o : ℕ) → IsLawful (owner_rendering o)
owner_rendering-IsLawful o = record {
  reset = λ s e g m. omega arith;
  retired = λ s. omega arith;
  uncharged = λ c s. omega arith;
  revoked = λ r. omega arith;
  launched = λ r p i v b. omega arith;
}

-- What the code counts in its admission tests is what the quotas charge.
pub promised-eq-charged :
    (p : Policy) (l : Ledger) → promised p l ≡ system_bytes p + render_pool_bytes p + charged disk l
unfolding charged
promised-eq-charged p l = refl

pub documents-eq-charged : (o : ℕ) (l : Ledger) → owner_documents o l ≡ charged (documents o) l
unfolding charged owner_documents
documents-eq-charged o l = refl

pub source-eq-charged : (o : ℕ) (l : Ledger) → owner_source o l ≡ charged (source o) l
unfolding charged owner_source
source-eq-charged o l = refl

pub derived-eq-charged : (o : ℕ) (l : Ledger) → owner_derived o l ≡ charged (derived o) l
unfolding charged owner_derived
derived-eq-charged o l = refl
