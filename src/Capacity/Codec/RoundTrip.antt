-- ===== src/Capacity/Codec/RoundTrip.antt =====
-- What is written is read back: the JSON objects of the stored values.
use kestrel_cloud_runpod.Prelude.{
  ℕ, ◌≡◌, refl, String, Option, none, some, true, false, str_eq, leb,
}
use kestrel_cloud_runpod.Capacity.States.{CloudType, secure, community}
use kestrel_cloud_runpod.Capacity.Evidence.{
  PodBillingReceipt, PodRealizedPlacement, PodCapacityLifecycleEvidence, lifecycle_accepted,
}
use kestrel_cloud_runpod.Capacity.Errors.{ok}
use kestrel_cloud_runpod.Capacity.Codec.{
  Texts, Value, ◌>>=◌, get, all_keys, keys, exact_keys, required_string, optional_string,
  required_int, parsed, cloud_text, read_cloud, required_decimal, datetime, optional_datetime,
  iso_or_null, text_or_null, receipt_to_dict, receipt_from_dict, placement_to_dict,
  placement_from_dict, lifecycle_to_dict, lifecycle_from_dict, receipt_accepted,
}

-- What datetime and decimal promise: a text that they wrote is read as what was written, and the text
-- of an instant is not empty.
pub record Readable (texts : Texts) : Type 0 where
  pub instant : (t : ℕ) → texts.fromisoformat (texts.isoformat t) ≡ some t
  pub instant_text : (t : ℕ) → str_eq (texts.isoformat t) "" ≡ false
  pub amount : (n : ℕ) → texts.decimal (texts.decimal_text n) ≡ some n

module _ (texts : Texts) (readable : Readable texts) where
  required_text : (s : String) → str_eq s "" ≡ false → required_string (Value.text s) ≡ ok s
  unfolding required_string
  required_text s h = rw h

  required_instant :
      (t : ℕ) → required_string (Value.text (texts.isoformat t)) ≡ ok (texts.isoformat t)
  required_instant t = required_text _ (readable.instant_text t)

  datetime-isoformat : (t : ℕ) → datetime texts (texts.isoformat t) ≡ ok t
  unfolding datetime parsed
  datetime-isoformat t = rw (readable.instant t)

  required_decimal-decimal_text :
      (n : ℕ) → required_decimal texts (Value.text (texts.decimal_text n)) ≡ ok n
  unfolding required_decimal parsed
  required_decimal-decimal_text n = rw (readable.amount n)

  optional_string-text_or_null : (o : Option String) → optional_string (text_or_null o) ≡ ok o
  unfolding optional_string
  optional_string-text_or_null none = refl
  optional_string-text_or_null (some s) = refl

  optional_datetime-iso_or_null :
      (o : Option ℕ) → optional_datetime texts (iso_or_null texts o) ≡ ok o
  unfolding optional_datetime ◌>>=◌
  optional_datetime-iso_or_null none = refl
  optional_datetime-iso_or_null (some t) = rw (datetime-isoformat t) refl

  -- A billing receipt that its checks accept is read back from what it is stored as.
  pub receipt_from_dict-receipt_to_dict :
      (r : PodBillingReceipt)
      → str_eq r.provider_billing_id "" ≡ false
      → receipt_accepted r ≡ true
      → receipt_from_dict texts (receipt_to_dict texts r) ≡ ok r
  unfolding receipt_from_dict receipt_to_dict get ◌>>=◌ required_int
  receipt_from_dict-receipt_to_dict r id accepted =
      rw
        (
          required_text r.provider_billing_id id,
          optional_string-text_or_null r.provider_pod_id,
          required_instant r.billed_from,
          datetime-isoformat r.billed_from,
          required_instant r.billed_until,
          datetime-isoformat r.billed_until,
          required_decimal-decimal_text r.hourly_price_usd,
          required_decimal-decimal_text r.actual_cost_usd,
          required_instant r.reconciled_at,
          datetime-isoformat r.reconciled_at,
          accepted,
        )
        refl

  read_cloud-cloud_text : (c : CloudType) → read_cloud (cloud_text c) ≡ ok c
  unfolding read_cloud cloud_text
  read_cloud-cloud_text secure = refl
  read_cloud-cloud_text community = refl

  required_cloud : (c : CloudType) → required_string (Value.text (cloud_text c)) ≡ ok (cloud_text c)
  unfolding cloud_text required_string
  required_cloud secure = refl
  required_cloud community = refl

  -- A realized placement whose texts are not empty, with at least one GPU, is read back from what it is
  -- stored as.
  pub placement_from_dict-placement_to_dict :
      (p : PodRealizedPlacement)
      → str_eq p.provider_pod_id "" ≡ false
      → str_eq p.gpu_type_id "" ≡ false
      → str_eq p.gpu_display_name "" ≡ false
      → str_eq p.data_center_id "" ≡ false
      → leb 1 p.gpu_count ≡ true
      → placement_from_dict texts (placement_to_dict texts p) ≡ ok p
  unfolding placement_from_dict placement_to_dict get exact_keys all_keys keys ◌>>=◌ required_int
  placement_from_dict-placement_to_dict p pod gpu name center count =
      rw
        (
          required_text p.provider_pod_id pod,
          required_text p.gpu_type_id gpu,
          required_text p.gpu_display_name name,
          required_cloud p.cloud,
          read_cloud-cloud_text p.cloud,
          required_text p.data_center_id center,
          required_decimal-decimal_text p.hourly_rate_usd,
          required_instant p.observed_at,
          datetime-isoformat p.observed_at,
          count,
        )
        refl

  -- The observed phases that the checks accept are read back from what they are stored as.
  pub lifecycle_from_dict-lifecycle_to_dict :
      (e : PodCapacityLifecycleEvidence)
      → lifecycle_accepted e ≡ true
      → lifecycle_from_dict texts (lifecycle_to_dict texts e) ≡ ok e
  unfolding lifecycle_from_dict lifecycle_to_dict get exact_keys all_keys keys ◌>>=◌ parsed
  lifecycle_from_dict-lifecycle_to_dict e accepted =
      rw
        (
          optional_datetime-iso_or_null (some e.reservation_at),
          optional_datetime-iso_or_null e.provider_create_accepted_at,
          optional_datetime-iso_or_null e.provider_adopted_at,
          optional_datetime-iso_or_null e.first_running_observed_at,
          optional_datetime-iso_or_null e.worker_ready_at,
          optional_datetime-iso_or_null e.workload_submitted_at,
          optional_datetime-iso_or_null e.workload_running_at,
          optional_datetime-iso_or_null e.workload_terminal_at,
          optional_datetime-iso_or_null e.stop_confirmed_at,
          optional_datetime-iso_or_null e.billing_reconciled_at,
          accepted,
        )
        refl
