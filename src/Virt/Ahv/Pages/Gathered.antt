-- ===== src/Virt/Ahv/Pages/Gathered.antt =====
-- What is gathered from a server that gives its machines page by page.
use mathlib.Core.List.{append_assoc, append-nil}
use virt_who.Base.{
  ℕ, zero, suc, ◌+◌, ◌-◌, ◌<◌, ◌≡◌, subst, refl, sym, ap, ◌∙◌, Option, some, List, [], ◌∷◌, ◌++◌,
  take, drop, length, length-append, arith,
}
use virt_who.Virt.Ahv.Pages.{Page, num_of_requested_vms, gather, get_vm_entities}

one_more : (n : ℕ) → 0 < n → n ≡ suc (n - 1)
one_more n h = omega (arith, h)

module _ {ℓ} {A : Type ℓ} where
  abbrev page : List A → Page A
  page es = record { entities = some es; metadata = some (some (length es)) }

  -- The answer of a server with these machines: those from an offset on, so many at most, and how
  -- many they are.
  abbrev pub served : (ℕ → ℕ) → List A → ℕ → Option (Page A)
  served size vms offset = some (page (take (size offset) (drop offset vms)))

  drop-length : (done rest : List A) → drop (length done) (done ++ rest) ≡ rest
  drop-length [] rest = refl
  drop-length (x ∷ done) rest = drop-length done rest

  take-drop : (n : ℕ) (xs : List A) → take n xs ++ drop n xs ≡ xs
  take-drop zero xs = refl
  take-drop (suc n) [] = refl
  take-drop (suc n) (x ∷ xs) = ap (λ r. x ∷ r) (take-drop n xs)

  length-drop : (n : ℕ) (xs : List A) (m : ℕ) → length xs < m → length (drop n xs) < m
  length-drop zero xs m h = h
  length-drop (suc n) [] m h = h
  length-drop (suc n) (x ∷ xs) m h = length-drop n xs m (omega (arith, h))

  module _ (answer : ℕ → Option (Page A)) (size : ℕ → ℕ) (positive : (o : ℕ) → 0 < size o) where
    rest_served :
        (done rest : List A)
        → ((o : ℕ) → answer o ≡ served size (done ++ rest) o)
        → {n : ℕ} → size (length done) ≡ n
        → answer (length done) ≡ some (page (take n rest))
    rest_served done rest serves e =
        serves (length done)
        ∙ ap (λ r. some (page (take (size (length done)) r))) (drop-length done rest)
        ∙ ap (λ n. some (page (take n rest))) e

    gather-stop :
        (fuel n o : ℕ) (done : List A)
        → answer o ≡ some (page [])
        → gather answer (suc fuel) n o done ≡ some done
    unfolding gather
    gather-stop fuel n o done e = rw (gather, e) refl

    gather-go :
        (fuel n o : ℕ) (done : List A) (x : A) (xs : List A)
        → answer o ≡ some (page (x ∷ xs))
        → gather answer (suc fuel) n o done
          ≡ gather answer fuel (length (x ∷ xs)) (o + length (x ∷ xs)) (done ++ (x ∷ xs))
    unfolding gather
    gather-go fuel n o done x xs e = rw (gather, e) refl

    gather-rest :
        (fuel n : ℕ) (done rest : List A)
        → length rest < fuel
        → ((o : ℕ) → answer o ≡ served size (done ++ rest) o)
        → gather answer fuel n (length done) done ≡ some (done ++ rest)
    gather-rest zero n done rest h serves = absurd (omega (arith, h))
    gather-rest (suc fuel) n done [] h serves =
        gather-stop fuel n (length done) done
          (rest_served done [] serves (one_more (size (length done)) (positive (length done))))
        ∙ ap some (sym (append-nil done))
    gather-rest (suc fuel) n done (x ∷ xs) h serves =
        let k : ℕ = size (length done) - 1 in
        let given =
          rest_served done (x ∷ xs) serves
            (one_more (size (length done)) (positive (length done))) in
        let es : List A = x ∷ take k xs in
        let whole : (done ++ es) ++ drop k xs ≡ done ++ (x ∷ xs) =
          append_assoc done es (drop k xs) ∙ ap (λ r. done ++ (x ∷ r)) (take-drop k xs) in
        gather-go fuel n (length done) done x (take k xs) given
        ∙ ap (λ o. gather answer fuel (length es) o (done ++ es)) (sym (length-append done es))
        ∙ gather-rest fuel (length es) (done ++ es) (drop k xs)
            (length-drop k xs fuel (omega (arith, h)))
            (subst (λ v. (o : ℕ) → answer o ≡ served size v o) (sym whole) serves)
        ∙ ap some whole

  -- From a server that gives at each offset the machines from there on, at least one if there is
  -- one, and says how many it gave, the loop gathers all machines in their order and ends, within
  -- one round more than there are machines.
  pub get_vm_entities-gathered :
      (answer : ℕ → Option (Page A)) (size : ℕ → ℕ) (vms : List A) (fuel : ℕ)
      → ((o : ℕ) → 0 < size o)
      → ((o : ℕ) → answer o ≡ served size vms o)
      → length vms < fuel
      → get_vm_entities answer fuel ≡ some vms
  unfolding get_vm_entities
  get_vm_entities-gathered answer size vms fuel positive serves h =
      gather-rest answer size positive fuel num_of_requested_vms [] vms h serves
