-- ===== src/Client/Log.antt =====
-- Well-formed additions to a client's log: every field that is entered is left again, and the
-- vector of scalar types records exactly the values that the client was handed.
use mathlib.Core.List.{append_assoc, append-nil}
use dragonegg.Base.{
  ℕ, zero, suc, ◌≡◌, refl, sym, ap, subst, ◌∙◌, List, [], ◌∷◌, ◌++◌, Option, none, some,
}
use dragonegg.Base.Results.{Result, ok, ◌>>=◌, ok_inj, >>=-eq-ok}
use dragonegg.Ir.{IrType}
use dragonegg.Client.{
  Event, State, scalar, invisible_reference, enter, exit, pad_event, emit, push_scalar,
}

-- The nesting depth after some events; `none` if a field is left that was not entered.
unfoldable pub depth : {Tree : Type 0} → List (Event Tree) → ℕ → Option ℕ
depth [] n = some n
depth (enter i t ∷ es) n = depth es (suc n)
depth (exit ∷ es) zero = none
depth (exit ∷ es) (suc n) = depth es n
depth (e ∷ es) n = depth es n

-- The types of the scalar arguments among the events.
unfoldable pub elts_of : {Tree : Type 0} → List (Event Tree) → List IrType
elts_of [] = []
elts_of (scalar t o r ∷ es) = t ∷ elts_of es
elts_of (invisible_reference t o ∷ es) = t ∷ elts_of es
elts_of (pad_event t ∷ es) = t ∷ elts_of es
elts_of (e ∷ es) = elts_of es

abbrev bind : Option ℕ → (ℕ → Option ℕ) → Option ℕ
bind none f = none
bind (some n) f = f n

module _ {Tree : Type 0} where
  -- A later state: some events more, balanced, with the scalar types that they hand over.
  pub record Extends (s t : State Tree) : Type 0 where
    pub added : List (Event Tree)
    pub events_are : t.events ≡ s.events ++ added
    pub elts_are : t.scalar_elts ≡ s.scalar_elts ++ elts_of added
    pub balanced : (n : ℕ) → depth added n ≡ some n

  depth-append :
      (es fs : List (Event Tree)) (n : ℕ) → depth (es ++ fs) n ≡ bind (depth es n) (λ m. depth fs m)
  unfolding depth
  depth-append [] fs n = refl
  depth-append (enter i t ∷ es) fs n = depth-append es fs (suc n)
  depth-append (exit ∷ es) fs zero = refl
  depth-append (exit ∷ es) fs (suc n) = depth-append es fs n
  depth-append (e ∷ es) fs n = depth-append es fs n

  pub elts_of-append : (es fs : List (Event Tree)) → elts_of (es ++ fs) ≡ elts_of es ++ elts_of fs
  unfolding elts_of
  elts_of-append [] fs = refl
  elts_of-append (scalar t o r ∷ es) fs = ap (λ l. t ∷ l) (elts_of-append es fs)
  elts_of-append (invisible_reference t o ∷ es) fs = ap (λ l. t ∷ l) (elts_of-append es fs)
  elts_of-append (pad_event t ∷ es) fs = ap (λ l. t ∷ l) (elts_of-append es fs)
  elts_of-append (e ∷ es) fs = elts_of-append es fs

  pub Extends-refl : (s : State Tree) → Extends s s
  unfolding depth elts_of
  Extends-refl s = record {
    added = [];
    events_are = sym (append-nil s.events);
    elts_are = sym (append-nil s.scalar_elts);
    balanced = λ n. refl;
  }

  pub Extends-trans : {s t u : State Tree} → Extends s t → Extends t u → Extends s u
  Extends-trans {s} {t} {u} a b = record {
    added = a.added ++ b.added;
    events_are =
        b.events_are ∙ ap (λ l. l ++ b.added) a.events_are ∙ append_assoc s.events a.added b.added;
    elts_are =
        b.elts_are
        ∙ ap (λ l. l ++ elts_of b.added) a.elts_are
        ∙ append_assoc s.scalar_elts (elts_of a.added) (elts_of b.added)
        ∙ ap (λ l. s.scalar_elts ++ l) (sym (elts_of-append a.added b.added));
    balanced = λ n. depth-append a.added b.added n ∙ rw (a.balanced n) (b.balanced n);
  }

  -- A field entered, something well-formed, and the field left.
  pub Extends-inside :
      {s t : State Tree} (i : ℕ) (ty : IrType)
      → Extends (emit s (enter i ty)) t
      → Extends s (emit t exit)
  unfolding depth elts_of
  Extends-inside {s} {t} i ty a = record {
    added = enter i ty ∷ (a.added ++ exit ∷ []);
    events_are = ap (λ l. l ++ exit ∷ []) a.events_are ∙ simp append_assoc;
    elts_are =
        a.elts_are
        ∙ ap (λ l. s.scalar_elts ++ l)
            (sym (elts_of-append a.added (exit ∷ []) ∙ append-nil (elts_of a.added)));
    balanced = λ n. depth-append a.added (exit ∷ []) (suc n) ∙ rw (a.balanced (suc n));
  }

  -- One event that enters and leaves no field and hands over no scalar.
  pub Extends-quiet :
      (s : State Tree) (e : Event Tree)
      → ((n : ℕ) → depth (e ∷ []) n ≡ some n)
      → elts_of (e ∷ []) ≡ []
      → Extends s (emit s e)
  Extends-quiet s e d l = record {
    added = e ∷ [];
    events_are = refl;
    elts_are = sym (append-nil s.scalar_elts) ∙ ap (λ k. s.scalar_elts ++ k) (sym l);
    balanced = d;
  }

  -- One event that hands over a scalar, whose type is pushed.
  pub Extends-scalar :
      (s : State Tree) (e : Event Tree) (t : IrType)
      → ((n : ℕ) → depth (e ∷ []) n ≡ some n)
      → elts_of (e ∷ []) ≡ t ∷ []
      → Extends s (push_scalar (emit s e) t)
  Extends-scalar s e t d l = record {
    added = e ∷ [];
    events_are = refl;
    elts_are = ap (λ k. s.scalar_elts ++ k) (sym l);
    balanced = d;
  }

  -- Whatever a fallible step ends in extends the state that it began in.
  abbrev pub AllExtend : State Tree → Result (State Tree) → Type 0
  AllExtend s r = (t : State Tree) → r ≡ ok t → Extends s t

  pub AllExtend-bind :
      (s : State Tree) (m : Result (State Tree)) (f : State Tree → Result (State Tree))
      → AllExtend s m
      → ((t : State Tree) → AllExtend t (f t))
      → AllExtend s (m >>= f)
  AllExtend-bind s m f a b t e = let (u, h, k) = >>=-eq-ok m f e in Extends-trans (a u h) (b u t k)

  pub AllExtend-ok : {s t : State Tree} → Extends s t → AllExtend s (ok t)
  AllExtend-ok {s} a u e = subst (Extends s) (ok_inj e) a
