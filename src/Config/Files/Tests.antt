-- ===== src/Config/Files/Tests.antt =====
-- The theorem on the files of the configuration at concrete files.
use virt_who.Base.{true, false, String, ◌≡◌, refl, some, [], ◌∷◌, if◌then◌else◌, ◌==◌, string_eq}
use virt_who.Base.Dict.{Dict, lookup, NodupKeys, insert, erase, update}
use virt_who.Config.Files.{FileSections, is_conf_chars, section_dicts, other_sections}
use virt_who.Config.Files.Ranked.{section_dicts-ranked}

abbrev esx : FileSections
esx = ("esx", ("type", "esx") ∷ ("owner", "b") ∷ []) ∷ []

abbrev read : String → FileSections
read name = if name == "a.conf" then esx else []

abbrev general : FileSections
general = ("global", ("debug", "1") ∷ []) ∷ ("esx", ("type", "libvirt") ∷ []) ∷ []

abbrev defaults : Dict String
defaults = ("owner", "a") ∷ ("env", "e") ∷ []

read-NodupKeys : (name : String) → NodupKeys (read name)
unfolding lookup
read-NodupKeys name = elim (name == "a.conf") as (λ b. NodupKeys (if b then esx else [])) [
  | true ↦ (refl, tt)
  | false ↦ tt
]

section_dicts-ranked_example :
    lookup "esx"
      (section_dicts read (λ f. f) defaults [] general (some ("a.conf" ∷ "notes" ∷ ".b.conf" ∷ [])))
    ≡ some (("owner", "b") ∷ ("env", "e") ∷ ("type", "esx") ∷ [])
unfolding lookup update insert erase other_sections is_conf_chars
section_dicts-ranked_example =
    section_dicts-ranked read (λ f. f) read-NodupKeys "esx" defaults [] general
      (some ("a.conf" ∷ "notes" ∷ ".b.conf" ∷ [])) (refl, (refl, tt))
