-- ===== src/Alerts/Durations.antt =====
-- services/alert_manager.py: a reader of durations gets back what `_seconds_to_duration` wrote.
use Prim.Native.String.{String, ◌++◌}
use tantor_v.Prelude.{
  ℕ, ◌*◌, ◌/◌, ◌%◌, ◌≡◌, refl, ap, inl, inr, Option, none, some, ◌==◌, eqb, eqb_iff, arith,
  Bool-cases, if◌then◌else◌,
}
use tantor_v.Prelude.Int.{pos}
use tantor_v.Prelude.Text.{decimal}
use tantor_v.Prelude.Text.Decimal.{read_digits, read_digits-decimal}
use tantor_v.Alerts.Scalars.{seconds_to_duration}

-- The seconds of a number and a unit, "s", "m" or "h", as Prometheus reads them.
abbrev scaled : ℕ × String → Option ℕ
scaled (n, unit) =
    if unit == "s"
    then some n
    else if unit == "m"
    then some (n * 60)
    else if unit == "h"
    then some (n * 3600)
    else none

unfoldable pub read_duration : String → Option ℕ
read_duration s = scaled (read_digits 0 s)

read_duration-decimal :
    (n : ℕ) (unit : String) → read_duration (decimal n ++ unit) ≡ scaled (read_digits n unit)
unfolding read_duration
read_duration-decimal n unit = rw (read_digits-decimal n unit) refl

-- Every number of seconds is read back from the duration that _seconds_to_duration writes for it.
pub read_duration-seconds_to_duration :
    (n : ℕ) → read_duration (seconds_to_duration (pos n)) ≡ some n
unfolding seconds_to_duration read_duration read_digits
read_duration-seconds_to_duration n = elim (Bool-cases (eqb n 0)) [
  | inl nothing ↦ let e : n ≡ 0 = (eqb_iff n 0).0 nothing in rw nothing (rw e refl)
  | inr long ↦ elim (Bool-cases (eqb (n % 3600) 0)) [
    | inl hours ↦
        let e : n % 3600 ≡ 0 = (eqb_iff (n % 3600) 0).0 hours in
        let whole : n / 3600 * 3600 ≡ n = omega (arith, e) in
        rw (long, hours, read_duration-decimal (n / 3600) "h") (ap some whole)
    | inr odd ↦ elim (Bool-cases (eqb (n % 60) 0)) [
      | inl minutes ↦
          let e : n % 60 ≡ 0 = (eqb_iff (n % 60) 0).0 minutes in
          let whole : n / 60 * 60 ≡ n = omega (arith, e) in
          rw (long, odd, minutes, read_duration-decimal (n / 60) "m") (ap some whole)
      | inr seconds ↦ rw (long, odd, seconds, read_duration-decimal n "s") refl
    ]
  ]
]
