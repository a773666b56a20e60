-- ===== src/Base/Method.antt =====
-- Methods of an object: what is written stays written when one raises.
use mathlib.Core.Path.{◌≡◌, refl}

-- How a method ends: it raises an exception of `E` or returns.
pub data Finish (E T : Type 0) : Type 0 where
  failure : E → Finish E T
  success : T → Finish E T

abbrev pub Method : Type 0 → Type 0 → Type 0 → Type 0
Method S E T = S → Finish E T × S

infixl 5 ◌>>=◌
abbrev pub ◌>>=◌ : {S E T U : Type 0} → Method S E T → (T → Method S E U) → Method S E U
◌>>=◌ m next s = let (o, s') = m s in elim o [ failure e ↦ (failure e, s') | success t ↦ next t s' ]

abbrev pub return : {S E T : Type 0} → T → Method S E T
return t s = (success t, s)

abbrev pub raise : {S E T : Type 0} → E → Method S E T
raise e s = (failure e, s)

abbrev pub change : {S E : Type 0} → (S → S) → Method S E Unit
change f s = (success tt, f s)

-- What holds of a block's end and the state after it.
abbrev pub After : {S E T : Type 0} → (Finish E T → S → Type 0) → Method S E T → S → Type 0
After Post m s = let (o, s') = m s in Post o s'

abbrev pub Bound :
    {S E T U : Type 0} → (Finish E U → S → Type 0) → (T → Method S E U) → Finish E T → S → Type 0
Bound Post next (failure e) s = Post (failure e) s
Bound Post next (success t) s = After Post (next t) s

chain_end :
    {S E T U : Type 0} (Post : Finish E U → S → Type 0) (next : T → Method S E U) (o : Finish E T)
    (s : S)
    → Bound Post next o s
    → After Post (λ x. elim o [ failure e ↦ (failure e, x) | success t ↦ next t x ]) s
chain_end Post next (failure e) s h = h
chain_end Post next (success t) s h = h

-- A chain of two blocks.
pub >>=-After :
    {S E T U : Type 0} (Post : Finish E U → S → Type 0) (m : Method S E T) (next : T → Method S E U)
    (s : S)
    → After (Bound Post next) m s
    → After Post (m >>= next) s
>>=-After Post m next s h = chain_end Post next (m s).0 (m s).1 h

-- What is known of the ends of a block is known of the ends that it has.
pub weaken-After :
    {S E T : Type 0} (Post Post' : Finish E T → S → Type 0) (m : Method S E T) (s : S)
    → ((o : Finish E T) (x : S) → Post o x → Post' o x)
    → After Post m s
    → After Post' m s
weaken-After Post Post' m s weaker h = weaker (m s).0 (m s).1 h

bind_success :
    {S E T U : Type 0} (next : T → Method S E U) (u : U) (o : Finish E T) (s s' : S)
    → After
        (λ p x. ◌≡◌ {A = Finish E U × S} (p, x) (success u, s'))
        (λ x. elim o [ failure e ↦ (failure e, x) | success t ↦ next t x ])
        s
    → (t : T) × ◌≡◌ {A = Finish E T × S} (o, s) (success t, s) × (next t s ≡ (success u, s'))
bind_success next u (failure e) s s' ended = cc
bind_success next u (success t) s s' ended = (t, refl, ended)

-- Inversion of a chain that returned.
pub >>=-success :
    {S E T U : Type 0} (m : Method S E T) (next : T → Method S E U) (u : U) (s s' : S)
    → (m >>= next) s ≡ (success u, s')
    → (t : T) × (x : S) × (m s ≡ (success t, x)) × (next t x ≡ (success u, s'))
>>=-success m next u s s' ended =
    let (t, first, later) = bind_success next u (m s).0 (m s).1 s' ended in
    (t, (m s).1, first, later)
