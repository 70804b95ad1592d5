-- ===== src/Vendor/BootFile.antt =====
-- services/vendor_simulator.py: the boot identifier that `persist` writes is read back, and the next
-- start takes the one after it.
use cislunar_ground_platform.Base.{
  ℕ, suc, ◌≤◌, ◌<◌, ◌≡◌, refl, sym, ap, ◌∙◌, Bool, true, false, not, ◌&&◌, some, [], ◌∷◌, ◌++◌,
  Result, ok, err, ◌⊎◌, inl, inr, arith, >>=-eq-ok, ok-injective, raise_if,
}
use cislunar_ground_platform.Base.Int.{pos, pos_part, leb_ℤ, ltb_ℤ}
use cislunar_ground_platform.Std.Format.{format_int}
use cislunar_ground_platform.Std.Text.Decimals.{format_int-Reads}
use cislunar_ground_platform.Telemetry.Codec.{uint32_max}
use cislunar_ground_platform.Vendor.Payload.{
  runtime_error, VendorError, File, persist, previous_of, checked_previous, persist_next, loaded,
  load_next_boot_id,
}

-- The file holds a boot identifier as `persist` writes it.
unfoldable pub Written : File → ℕ → Type 0
Written file p = (file ≡ some (format_int 9 1 (pos p) ++ 10 ∷ [])) × (p ≤ uint32_max)

pub persist-cases :
    (writes : Bool) (p : ℕ) (file : File)
    → p ≤ uint32_max
    → ((later : File) × (persist writes p file ≡ (ok tt, later)) × Written later p)
      ⊎ ((e : VendorError) × (persist writes p file ≡ (err e, file)))
unfolding persist Written
persist-cases true p file h = inl (_, refl, (refl, h))
persist-cases false p file h = inr (_, refl)

previous_of-Written : (file : File) (p : ℕ) → Written file p → previous_of file ≡ ok (pos p)
unfolding previous_of Written
previous_of-Written file p (e, h) =
    let (ascii, visible, value) = format_int-Reads 10 p (omega arith) (omega arith) in
    rw (e, ascii, visible, value) refl

-- What is read from the file can be counted on.
checked_previous-lt : (file : File) (p : ℕ) → checked_previous file ≡ ok p → p < uint32_max
unfolding checked_previous
checked_previous-lt file p h =
    let (z, read, h₁) = >>=-eq-ok (previous_of file) _ h in
    let (u, checked, h₂) =
      >>=-eq-ok (raise_if (not (leb_ℤ (pos 0) z && ltb_ℤ z (pos uint32_max))) _) _ h₁ in
    ground arith

pub checked_previous-Written :
    (file : File) (p q : ℕ) → Written file p → checked_previous file ≡ ok q → p ≡ q
unfolding checked_previous
checked_previous-Written file p q w h =
    let e = h in
    let (z, read, h₁) = >>=-eq-ok (previous_of file) _ h in
    let same : pos p ≡ z = ok-injective (sym (previous_of-Written file p w) ∙ read) in
    let (u, checked, h₂) =
      >>=-eq-ok (raise_if (not (leb_ℤ (pos 0) z && ltb_ℤ z (pos uint32_max))) runtime_error) _ h₁ in
    ap pos_part same ∙ ok-injective h₂

-- A start reads a boot identifier and writes the next one, or leaves the file as it is.
persist_next-cases :
    (writes : Bool) (m : Result VendorError ℕ) (file : File)
    → ((p : ℕ) → m ≡ ok p → p < uint32_max)
    → ((p : ℕ) × (later : File) × (persist_next writes m file ≡ (ok (suc p), later))
        × (m ≡ ok p)
        × Written later (suc p))
      ⊎ ((e : VendorError) × (persist_next writes m file ≡ (err e, file)))
unfolding persist_next
persist_next-cases writes (ok p) file h =
    elim (persist-cases writes (suc p) file (omega (arith, h p refl))) [
      | inl (later, e, w) ↦ inl (p, later, ap (loaded (suc p)) e, refl, w)
      | inr (e, failed) ↦ inr (e, ap (loaded (suc p)) failed)
    ]
persist_next-cases writes (err e) file h = inr (e, refl)

pub load-cases :
    (writes : Bool) (file : File)
    → ((p : ℕ) × (later : File) × (load_next_boot_id writes file ≡ (ok (suc p), later))
        × (checked_previous file ≡ ok p)
        × Written later (suc p))
      ⊎ ((e : VendorError) × (load_next_boot_id writes file ≡ (err e, file)))
unfolding load_next_boot_id
load-cases writes file =
    persist_next-cases writes (checked_previous file) file (checked_previous-lt file)
