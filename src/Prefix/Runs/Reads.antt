-- ===== src/Prefix/Runs/Reads.antt =====
-- The reader on the codes of one run: it takes them all and has read the run.
use mbrotli.Common.{
  ℕ, zero, suc, ◌+◌, ◌-◌, ◌*◌, ◌≤◌, ◌<◌, arith, ◌==◌, if◌then◌else◌, List, [], ◌∷◌, ◌++◌, Bool,
}
use mbrotli.Common.{
  ◌≡◌, ◌≢◌, ◌⊎◌, inl, inr, refl, sym, ap, ◌∙◌, Bool-cases, eq→test, ne→test, lt→ltb, ge→ltb, length,
  replicate, append_assoc, append-nil, length-append,
}
use native.Mathlib.Decide.{ℕ_discrete, dec_lt}
use mathlib.Core.Path.{subst}
use mbrotli.Prefix.Lists.{Lists}
use mbrotli.Prefix.Lengths.{Reader, plain}
use mbrotli.Prefix.Lengths.Holds.{weight, kraft, Holds, kraft-append, last_value}
use mbrotli.Prefix.Lengths.Steps.{Read, Read-trans, plain-Read, Repeats, Fresh}
use mbrotli.Prefix.Lengths.Chains.{chain, After, chain-After, partial}
use mbrotli.Prefix.Runs.Codes.{plains, rest_codes, seven_codes, value_codes, zero_codes}

-- What the codes of `n` lengths `v` lead to.
pub record Took (alphabet : ℕ) (l : Lists) (done : List ℕ) (v n : ℕ) (r : Reader)
    (inputs : List (ℕ × ℕ)) : Type 0 where
  pub reader : Reader
  pub read : Read alphabet l r inputs (done ++ replicate n v) reader
  pub ended : (reader.repeat ≡ 0) ⊎ ((reader.repeat_length ≡ v) × (3 ≤ n))

-- The room for `n` lengths `v` after `done`: in the alphabet, and in the code space.
pub record Room (alphabet : ℕ) (done : List ℕ) (v n : ℕ) : Type 0 where
  pub value : v ≤ 15
  pub some : 0 < n → kraft done < 32768
  pub fit : kraft done + n * weight v ≤ 32768
  pub room : length done + n ≤ alphabet
  pub small : alphabet ≤ 65535

Room-rest :
    {alphabet : ℕ} {done : List ℕ} {v : ℕ} (n : ℕ)
    → Room alphabet done v (suc n)
    → Room alphabet (done ++ (v ∷ [])) v n
unfolding kraft
Room-rest {alphabet} {done} {v} n h = record {
  value = h.value;
  some = λ more. partial done v 1 (n - 1) (h.some (omega arith)) (omega (arith, h.fit, same more));
  fit = omega (arith, h.fit, kraft-append done (v ∷ []));
  room = omega (arith, h.room, length-append done (v ∷ []));
  small = h.small;
}
  where
    same : 0 < n → (1 + suc (n - 1)) * weight v ≡ suc n * weight v
    same more = ap (λ (t : ℕ). t * weight v) (omega (arith, more))

-- One plain code before the codes of the others.
plain-Took :
    {alphabet : ℕ} {l : Lists} {done : List ℕ} {r : Reader} {codes : List (ℕ × ℕ)} (v n : ℕ)
    → Holds l done r
    → Room alphabet done v (suc n)
    → (Holds l (done ++ (v ∷ [])) (plain v r)
        → Room alphabet (done ++ (v ∷ [])) v n
        → Took alphabet l (done ++ (v ∷ [])) v n (plain v r) codes)
    → Took alphabet l done v (suc n) r ((v, 0) ∷ codes)
plain-Took {alphabet} {l} {done} {r} {codes} v n h fits onward =
    let first =
      plain-Read v h fits.value (fits.some (omega arith)) (omega (arith, fits.fit))
        (omega (arith, fits.room)) fits.small in
    let rest = onward first.state (Room-rest n fits) in
    record {
      reader = rest.reader;
      read =
          subst (λ d. Read alphabet l r ((v, 0) ∷ codes) d rest.reader)
            (append_assoc done (v ∷ []) (replicate n v)) (Read-trans first rest.read);
      ended = elim rest.ended [ inl e ↦ inl e | inr (e, p) ↦ inr (e, omega (arith, p)) ];
    }

none-Took :
    {alphabet : ℕ} {l : Lists} {done : List ℕ} {r : Reader} (v : ℕ)
    → Holds l done r
    → r.repeat ≡ 0
    → Took alphabet l done v 0 r []
none-Took {alphabet} {l} {done} {r} v h e = record {
  reader = r;
  read = record { state = subst (λ d. Holds l d r) (sym (append-nil done)) h; loop = λ rest. refl };
  ended = inl e;
}

plains-Took :
    {alphabet : ℕ} {l : Lists} (v n : ℕ) {done : List ℕ} {r : Reader}
    → Holds l done r
    → (r.repeat ≡ 0) ⊎ (0 < n)
    → Room alphabet done v n
    → Took alphabet l done v n r (plains n v)
plains-Took v zero h idle fits =
    none-Took v h (elim idle [ inl e ↦ e | inr p ↦ absurd (omega (arith, p)) ])
plains-Took v (suc n) h idle fits =
    plain-Took v n h fits (λ h' fits'. plains-Took v n h' (inl (unfold plain in refl)) fits')

rest_codes-Took :
    {alphabet : ℕ} {l : Lists} (code v n : ℕ) {done : List ℕ} {r : Reader}
    → Holds l done r
    → Repeats code v r
    → (r.repeat ≡ 0) ⊎ ((0 < n) × (Fresh v r ⊎ (n ≤ 2)))
    → Room alphabet done v n
    → Took alphabet l done v n r (rest_codes code (code - 14) v n)
unfolding rest_codes Fresh
rest_codes-Took {alphabet} {l} code v n {done} {r} h by idle fits = elim (dec_lt n 3) [
  | yes few ↦
      rw (lt→ltb n 3 few)
        (plains-Took v n h (elim idle [ inl e ↦ inl e | inr (p, q) ↦ inr p ]) fits)
  | no many ↦
      let fresh : (if r.repeat_length == v then r.repeat else 0) ≡ 0 = elim idle [
        | inl e ↦
            rw e
              (elim (Bool-cases (r.repeat_length == v)) [ inl t ↦ rw t refl | inr t ↦ rw t refl ])
        | inr (p, inl f) ↦ f
        | inr (p, inr q) ↦ absurd (omega (arith, many, q))
      ] in
      let whole : n - 3 + 3 ≡ n = omega (arith, many) in
      let out : After alphabet l done v n r (chain (n - 3) code (code - 14) (n - 3)) =
        subst (λ (m : ℕ). After alphabet l done v m r (chain (n - 3) code (code - 14) (n - 3)))
          whole
          (chain-After alphabet code (n - 3) (n - 3) v r (omega arith) h by fits.value fresh
            (fits.some (omega (arith, many))) (rw whole fits.fit) (rw whole fits.room)
            fits.small) in
      rw (ge→ltb n 3 (omega (arith, many))) (record {
        reader = out.reader;
        read = out.read;
        ended = inr (out.length_kept, omega (arith, many));
      })
]

-- A plain code leaves no run under way, and its length to be repeated.
first_Took :
    {alphabet : ℕ} {l : Lists} (code v n : ℕ) {done : List ℕ} {r : Reader}
    → Holds l done r
    → ((code ≡ 17) × (v ≡ 0)) ⊎ ((code ≡ 16) × (v ≢ 0))
    → Room alphabet done v (suc n)
    → Took alphabet l done v (suc n) r ((v, 0) ∷ rest_codes code (code - 14) v n)
unfolding Repeats plain
first_Took code v n {r = r} h by fits =
    plain-Took v n h fits (λ h' fits'. rest_codes-Took code v n h' again (inl refl) fits')
  where
    again : Repeats code v (plain v r)
    again = elim by [
      | inl z ↦ inl z
      | inr (c, ne) ↦ inr (c, sym (ap (λ (t : Bool). if t then r.previous else v) (ne→test v 0 ne)))
    ]

seven_codes-Took :
    {alphabet : ℕ} {l : Lists} (v n : ℕ) {done : List ℕ} {r : Reader}
    → Holds l done r
    → v ≢ 0
    → v ≡ r.previous
    → (r.repeat ≡ 0) ⊎ ((0 < n) × (Fresh v r ⊎ (n ≤ 2)))
    → Room alphabet done v n
    → Took alphabet l done v n r (seven_codes v n)
unfolding seven_codes Repeats
seven_codes-Took {alphabet} {l} v n {done} {r} h ne same idle fits = elim (ℕ_discrete n 7) [
  | yes e ↦ rw e (first_Took 16 v 6 h (inr (refl, ne)) (rw (sym e) fits))
  | no ne' ↦ rw (ne→test n 7 ne') (rest_codes-Took 16 v n h (inr (refl, same)) idle fits)
]

-- The codes of `n` lengths `v` other than zero, and those of `n` zeros: the reader takes them all.
pub value_codes-Took :
    {alphabet : ℕ} {l : Lists} (v n : ℕ) {done : List ℕ} {r : Reader}
    → Holds l done r
    → v ≢ 0
    → Fresh v r ⊎ (n ≤ 1)
    → 0 < n
    → Room alphabet done v n
    → Took alphabet l done v n r (value_codes (last_value 8 done) v n)
unfolding value_codes plain
value_codes-Took {alphabet} {l} v n {done} {r} h ne idle some fits =
    elim (ℕ_discrete (last_value 8 done) v) [
      | yes e ↦ rw (eq→test (last_value 8 done) v e) (
          seven_codes-Took v n h ne (sym (h.last ∙ e))
            (inr (some, elim idle [ inl f ↦ inl f | inr p ↦ inr (omega (arith, p)) ])) fits)
      | no ne' ↦
          let m : n ≡ suc (n - 1) = omega (arith, some) in
          rw (ne→test (last_value 8 done) v ne') (
            subst (λ (k : ℕ). Took alphabet l done v k r ((v, 0) ∷ seven_codes v (n - 1))) (sym m)
              (plain-Took v (n - 1) h (subst (Room alphabet done v) m fits) (λ h' fits'.
                seven_codes-Took v (n - 1) h' ne
                  (sym (ap (λ (t : Bool). if t then r.previous else v) (ne→test v 0 ne))) (inl refl)
                  fits')))
    ]

pub zero_codes-Took :
    {alphabet : ℕ} {l : Lists} (n : ℕ) {done : List ℕ} {r : Reader}
    → Holds l done r
    → Fresh 0 r ⊎ (n ≤ 1)
    → 0 < n
    → Room alphabet done 0 n
    → Took alphabet l done 0 n r (zero_codes n)
unfolding zero_codes Repeats
zero_codes-Took n h idle some fits = elim (ℕ_discrete n 11) [
  | yes e ↦ rw e (first_Took 17 0 10 h (inl (refl, refl)) (rw (sym e) fits))
  | no ne ↦ rw (ne→test n 11 ne) (
      rest_codes-Took 17 0 n h (inl (refl, refl))
        (inr (some, elim idle [ inl f ↦ inl f | inr p ↦ inr (omega (arith, p)) ])) fits)
]
