-- ===== src/Host/Valid.antt =====
-- The invariant of a host, and that the insertion of a definition keeps it (src/host.rs).
use hvm.Prelude.{
  ℕ, ◌≡◌, ◌≢◌, refl, Bool, true, false, Option, none, some, ◌==◌, arith, ◌^◌, ◌<◌, ◌∙◌,
}
use mathlib.Core.Path.{sym, subst, ap}
use hvm.Run.Tag.{Tag}
use hvm.Run.Port.{is_principal, new_ref, addr}
use hvm.Run.Port.Fields.{IsAddr, new_fields}
use hvm.Ast.{Name}
use hvm.Transform.Inline.{name_eq}
use hvm.Host.{Host, Def, get, insert_def, ref_port, def_port, default}
use hvm.Host.Maps.{
  get-insert, get-insert_other, name_eq_sound, name_eq_refl, name_eq-Decides, eq-Decides,
}

-- The address of a definition is aligned, and its labels are those of 16 bits.
pub record IsDef (def : Def) : Type 0 where
  pub aligned : IsAddr def.addr
  pub labels : def.labs.min_safe < 2 ^ 16

-- The two maps of a host: the address of each definition leads back to its name.
pub record IsHost (host : Host) : Type 0 where
  pub valid : (nam : Name) (def : Def) → get name_eq host.defs nam ≡ some def → IsDef def
  pub named :
      (nam : Name) (def : Def)
      → get name_eq host.defs nam ≡ some def
      → get ◌==◌ host.back def.addr ≡ some nam

def_port-fields :
    (def : Def)
    → IsDef def
    → (is_principal (def_port def) ≡ true) × (addr (def_port def) ≡ def.addr)
unfolding def_port new_ref is_principal
def_port-fields def h =
    let f = new_fields Tag.ref def.labs.min_safe def.addr h.labels h.aligned in (rw (f.0) refl, f.2)

-- The ports of a host's definitions are principal.
abbrev pub Principal : Host → Type 0
Principal host = (nam : Name) (p : ℕ) → ref_port host nam ≡ some p → is_principal p ≡ true

pub IsHost-Principal : (host : Host) → IsHost host → Principal host
unfolding ref_port
IsHost-Principal host h nam p e = at (get name_eq host.defs nam) (h.valid nam) e
  where
    at :
        (o : Option Def)
        → ((def : Def) → o ≡ some def → IsDef def)
        → (elim o as (λ o. Option ℕ) [ none ↦ none | some def ↦ some (def_port def) ]) ≡ some p
        → is_principal p ≡ true
    at none v e = absurd (ground arith)
    at (some def) v e =
        let same : def_port def ≡ p = ground arith in
        subst (λ x. is_principal x ≡ true) same ((def_port-fields def (v def refl)).0)

pub name_eq-other : (a b : Name) → a ≢ b → name_eq a b ≡ false
name_eq-other a b ne = at (name_eq a b) (name_eq_sound a b)
  where
    at : (c : Bool) → (c ≡ true → a ≡ b) → c ≡ false
    at true h = absurd (ne (h refl))
    at false h = refl

module _ (host : Host) (name : Name) (def : Def) where
  -- No other name's definition has the address.
  abbrev pub Fresh : Type 0
  Fresh =
      (nam : Name) (other : Def)
      → get name_eq host.defs nam ≡ some other
      → nam ≢ name
      → def.addr ≢ other.addr

  module _ (d : IsDef def) where
    def_addr : addr (def_port def) ≡ def.addr
    def_addr = (def_port-fields def d).1

    insert_def-defs : get name_eq (insert_def host name def).defs name ≡ some def
    unfolding insert_def
    insert_def-defs = get-insert name_eq name_eq-Decides host.defs name def

    insert_def-back : get ◌==◌ (insert_def host name def).back def.addr ≡ some name
    unfolding insert_def
    insert_def-back = rw def_addr (get-insert ◌==◌ eq-Decides host.back def.addr name)

    insert_def-others :
        (nam : Name)
        → nam ≢ name
        → get name_eq (insert_def host name def).defs nam ≡ get name_eq host.defs nam
    unfolding insert_def
    insert_def-others nam ne =
        get-insert_other name_eq name_eq-Decides host.defs name nam def
          (name_eq-other name nam (λ e. ne (sym e)))

    insert_def-back_others :
        (a : ℕ) → def.addr ≢ a → get ◌==◌ (insert_def host name def).back a ≡ get ◌==◌ host.back a
    unfolding insert_def
    insert_def-back_others a ne =
        rw def_addr (get-insert_other ◌==◌ eq-Decides host.back def.addr a name (ground arith))

    -- What a name has after the insertion: the new definition, or what it had.
    by_name :
        (P : Def → Type 0) (nam : Name) (other : Def)
        → get name_eq (insert_def host name def).defs nam ≡ some other
        → (nam ≡ name → P def)
        → (nam ≢ name → get name_eq host.defs nam ≡ some other → P other)
        → P other
    by_name P nam other e new old = at (name_eq name nam) refl
      where
        at : (b : Bool) → name_eq name nam ≡ b → P other
        at true same =
            let eq : name ≡ nam = name_eq_sound name nam same in
            let got : def ≡ other =
              ap (λ o. elim o as (λ o. Def) [ none ↦ def | some x ↦ x ])
                (sym insert_def-defs
                  ∙ ap (λ x. get name_eq (insert_def host name def).defs x) eq
                  ∙ e) in
            subst P got (new (sym eq))
        at false other_name =
            let ne : nam ≢ name = λ eq.
              absurd (
                cc (other_name, subst (λ x. name_eq name x ≡ true) (sym eq) (name_eq_refl name))) in
            old ne (sym (insert_def-others nam ne) ∙ e)

-- If the address of a definition is that of no other name's definition, then insert_def keeps a host
-- valid, the name has the definition, its address has the name, and other names have what they had.
pub insert_def-IsHost :
    (host : Host) (name : Name) (def : Def)
    → IsHost host
    → IsDef def
    → Fresh host name def
    → IsHost (insert_def host name def)
      × (get name_eq (insert_def host name def).defs name ≡ some def)
      × (get ◌==◌ (insert_def host name def).back def.addr ≡ some name)
      × ((nam : Name)
          → nam ≢ name
          → get name_eq (insert_def host name def).defs nam ≡ get name_eq host.defs nam)
insert_def-IsHost host name def h d fresh = (
  record {
    valid =
        λ nam other e. by_name host name def d IsDef nam other e (λ _. d) (λ ne. h.valid nam other);
    named = λ nam other e.
        by_name host name def d (λ x. get ◌==◌ (insert_def host name def).back x.addr ≡ some nam)
          nam other e (λ same. insert_def-back host name def d ∙ ap some (sym same))
          (λ ne old.
            insert_def-back_others host name def d other.addr (fresh nam other old ne)
            ∙ h.named nam other old);
  },
  insert_def-defs host name def d,
  insert_def-back host name def d,
  insert_def-others host name def d,
)

pub default-IsHost : IsHost default
default-IsHost = record {
  valid = λ nam def e. absurd (ground arith);
  named = λ nam def e. absurd (ground arith);
}
