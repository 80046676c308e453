-- ===== src/Harness/Act.antt =====
-- A method of the service: it takes the world to a result and the world that it leaves, also where it
-- raises.
use autocad_mechanical_harne.Base.{ℕ, suc, String, ◌≡◌, refl, ◌∙◌, Option, [], ◌∷◌, ◌++◌, ap, arith}
use autocad_mechanical_harne.Errors.{HarnessError, Result, ok, err}
use autocad_mechanical_harne.Store.{JobStore}
use autocad_mechanical_harne.Harness.World.{Harness, World}

abbrev pub Act : Type 0 → Type 0 → Type 0
Act S A = World S → Result A × World S

module _ {S : Type 0} where
  abbrev pub and_then : {A B : Type 0} → Result A × World S → (A → Act S B) → Result B × World S
  and_then (ok a, w) rest = rest a w
  and_then (err e, w) rest = (err e, w)

  infixl 5 ◌>>=◌ ◌>>◌
  abbrev pub ◌>>=◌ : {A B : Type 0} → Act S A → (A → Act S B) → Act S B
  ◌>>=◌ act rest = λ w. and_then (act w) rest

  abbrev pub ◌>>◌ : {B : Type 0} → Act S (Unit {0}) → Act S B → Act S B
  ◌>>◌ act rest = λ w. and_then (act w) (λ done. rest)

  abbrev pub either_way :
      {A B : Type 0}
      → Result A × World S
      → (A → Act S B)
      → (HarnessError → Act S B)
      → Result B × World S
  either_way (ok a, w) rest handler = rest a w
  either_way (err e, w) rest handler = handler e w

  -- `try: a = act()`, `except Exception as e: handler(e)`, `else: rest(a)`
  abbrev pub attempt : {A B : Type 0} → Act S A → (A → Act S B) → (HarnessError → Act S B) → Act S B
  attempt act rest handler = λ w. either_way (act w) rest handler

  abbrev pub give : {A : Type 0} → A → Act S A
  give a w = (ok a, w)

  -- A check that only reads.
  abbrev pub read : {A : Type 0} → (World S → Result A) → Act S A
  read f w = (f w, w)

  abbrev pub modify : (World S → World S) → Act S (Unit {0})
  modify f w = (ok tt, f w)

  abbrev pub change_store : (JobStore → JobStore) → Act S (Unit {0})
  change_store f w = (ok tt, record w { store = f w.store })

  -- The clock's next reading.
  abbrev pub now : Harness S → Act S ℕ
  now h w = (ok (h.clock w.ticks), record w { ticks = suc w.ticks })

  abbrev pub fresh_id : Harness S → Act S String
  fresh_id h w = (ok (h.new_id w.ids), record w { ids = suc w.ids })

  -- self.audit.append(...)
  abbrev pub audit : String → Option String → String → String → Act S (Unit {0})
  audit event_type job_id actor_type actor_id w = (
    ok tt,
    record w {
      events =
          w.events
          ++ record {
            event_type = event_type;
            job_id = job_id;
            actor_type = actor_type;
            actor_id = actor_id;
          }
            ∷ [];
    },
  )

  -- Inversion of a chain that succeeds.
  pub with_chain :
      {A B Goal : Type 0} (act : Act S A) {rest : A → Act S B} {w w' : World S} {b : B}
      → (act >>= rest) w ≡ (ok b, w')
      → ((a : A) (v : World S) → act w ≡ (ok a, v) → rest a v ≡ (ok b, w') → Goal)
      → Goal
  with_chain {A} {B} {Goal} act {rest} {w} {w'} {b} e goal = go (act w) refl e
    where
      go : (out : Result A × World S) → act w ≡ out → and_then out rest ≡ (ok b, w') → Goal
      go (ok a, v) same e = goal a v same e
      go (err x, v) same e = absurd (ground (arith, ap (λ p. p.0) e))

  -- The same for a first step that only reads.
  pub with_read :
      {A B Goal : Type 0} (f : World S → Result A) (rest : A → Act S B) {w w' : World S} {b : B}
      → (read f >>= rest) w ≡ (ok b, w')
      → ((a : A) → f w ≡ ok a → rest a w ≡ (ok b, w') → Goal)
      → Goal
  with_read {A} {B} {Goal} f rest {w} {w'} {b} e goal = go (f w) refl e
    where
      go : (out : Result A) → f w ≡ out → and_then (out, w) rest ≡ (ok b, w') → Goal
      go (ok a) same e = goal a same e
      go (err x) same e = absurd (ground (arith, ap (λ p. p.0) e))

  -- A method that leaves a part of the world as it was, whatever its result.
  abbrev pub Keeps : {A T : Type 0} → (World S → T) → Act S A → Type 0
  Keeps part act = (w : World S) → part (act w).1 ≡ part w

  pub chain-Keeps :
      {A B T : Type 0} (part : World S → T) (act : Act S A) (rest : A → Act S B)
      → Keeps part act
      → ((a : A) → Keeps part (rest a))
      → Keeps part (act >>= rest)
  chain-Keeps {A} {B} {T} part act rest first then_ w = go (act w) (first w)
    where
      go : (out : Result A × World S) → part out.1 ≡ part w → part (and_then out rest).1 ≡ part w
      go (ok a, v) e = then_ a v ∙ e
      go (err x, v) e = e

  -- A method that leaves a property of the world, whatever its result.
  abbrev pub Maintains : {A : Type 0} → (World S → Type 0) → Act S A → Type 0
  Maintains P act = (w : World S) → P w → P (act w).1

  pub chain-Maintains :
      {A B : Type 0} (P : World S → Type 0) (act : Act S A) (rest : A → Act S B)
      → Maintains P act
      → ((a : A) → Maintains P (rest a))
      → Maintains P (act >>= rest)
  chain-Maintains {A} {B} P act rest first then_ w p = go (act w) (first w p)
    where
      go : (out : Result A × World S) → P out.1 → P (and_then out rest).1
      go (ok a, v) q = then_ a v q
      go (err x, v) q = q

  -- A chain by the outcomes of its first step, for any property of a result and a world.
  pub chain-cases :
      {A B : Type 0} (Q : Result B × World S → Type 0) (act : Act S A) (rest : A → Act S B)
      (w : World S)
      → ((a : A) (v : World S) → act w ≡ (ok a, v) → Q (rest a v))
      → ((e : HarnessError) (v : World S) → act w ≡ (err e, v) → Q (err e, v))
      → Q ((act >>= rest) w)
  chain-cases {A} {B} Q act rest w fine bad = go (act w) refl
    where
      go : (out : Result A × World S) → act w ≡ out → Q (and_then out rest)
      go (ok a, v) e = fine a v e
      go (err x, v) e = bad x v e

  -- The same for a first step that only reads.
  pub read-cases :
      {A B : Type 0} (Q : Result B × World S → Type 0) (f : World S → Result A) (rest : A → Act S B)
      (w : World S)
      → ((a : A) → f w ≡ ok a → Q (rest a w))
      → ((e : HarnessError) → Q (err e, w))
      → Q ((read f >>= rest) w)
  read-cases {A} {B} Q f rest w fine bad = go (f w) refl
    where
      go : (out : Result A) → f w ≡ out → Q (and_then (out, w) rest)
      go (ok a) e = fine a e
      go (err x) e = bad x
