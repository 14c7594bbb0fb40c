-- ===== src/Wake/Alarm.antt =====
-- What is armed is what is pending (src/sleep/rtc.rs, the backend `wakealarm`).
use Prim.Native.String.{◌++◌ as append}
use ampered.Prelude.{
  ℕ, ◌+◌, ◌*◌, ◌/◌, ◌^◌, ◌<◌, ◌≤◌, ◌≡◌, refl, arith, true, false, none, some, ltb, decimal,
}
use ampered.Wake.Rtc.{
  AlarmFile, epoch_for, wakealarm, write_epoch, pending, pending_of, flatten, min_horizon,
}
use ampered.Wake.Decimals.{parse_pending-decimal}

-- The attribute at a time of the clock, as the kernel documents it: writing 0 clears an alarm, and a
-- cleared attribute takes a time in seconds that is more than two seconds ahead, and shows it on a line.
-- Of a time in the past or nearer than that nothing is said: the kernel refuses it.
pub record IsAttribute {F : Type 0} (file : AlarmFile F) (now : ℕ) : Type 0 where
  pub clears : (f : F) → (file.write "0" f).1 ≡ true
  pub takes :
      (f : F) (epoch : ℕ)
      → now + 2 * 10 ^ 9 < epoch * 10 ^ 9
      → epoch < 2 ^ 64
      → let f' = (file.write "0" f).0 in
        ((file.write (decimal epoch) f').1 ≡ true)
        × (file.read (file.write (decimal epoch) f').0 ≡ some (append (decimal epoch) "\n"))

epoch_for-far : (at now : ℕ) → now + min_horizon ≤ at → epoch_for at now ≡ some (at / 10 ^ 9)
unfolding epoch_for
epoch_for-far at now h = let far : ltb at (now + min_horizon) ≡ false = ground arith in rw far refl

epoch_for-near : (at now : ℕ) → at < now + min_horizon → epoch_for at now ≡ none
unfolding epoch_for
epoch_for-near at now h =
    let near : ltb at (now + min_horizon) ≡ true = ground arith in rw near refl

module _ {F : Type 0} (file : AlarmFile F) (now : ℕ) (a : IsAttribute file now) where
  write-pending :
      (epoch : ℕ) (f : F)
      → now + 2 * 10 ^ 9 < epoch * 10 ^ 9
      → epoch < 2 ^ 64
      → let (f', done) = write_epoch file (some epoch) f in
        (done ≡ true) × (flatten (pending file f') ≡ some (epoch * 10 ^ 9))
  unfolding write_epoch pending pending_of
  write-pending epoch f ahead fits =
      let (done, shown) = a.takes f epoch ahead fits in
      rw (a.clears f) (done, rw shown (rw (parse_pending-decimal epoch fits) refl))

-- On an attribute that takes times more than two seconds ahead, and for a time whose seconds fit a `u64`,
-- whether an alarm was armed before or not: a time at least the horizon away is armed, and pending is
-- that time to the second. A nearer time is refused, and the attribute is not touched.
pub set-pending :
    {F : Type 0} (file : AlarmFile F) (at now : ℕ) (f : F)
    → IsAttribute file now
    → at / 10 ^ 9 < 2 ^ 64
    → let alarm = wakealarm file now in
      let s = alarm.set at f in
      (now + min_horizon ≤ at → (s.1 ≡ true) × (alarm.pending s.0 ≡ some (at / 10 ^ 9 * 10 ^ 9)))
      × (at < now + min_horizon → s ≡ (f, false))
unfolding wakealarm write_epoch
set-pending file at now f a fits = (
  λ far.
      rw (epoch_for-far at now far) (write-pending file now a (at / 10 ^ 9) f (omega arith) fits),
  λ near. rw (epoch_for-near at now near) refl,
)
