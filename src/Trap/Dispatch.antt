-- ===== src/Trap/Dispatch.antt =====
-- The dispatch of `intr_hdlr` of kernel/core/intr.c and `excp_hdlr` of kernel/core/excp.c, with
-- the vectors and the double fault rule of kernel/include/excp.h.
use secos_ng.Base.{
  ℕ, ◌%◌, ◌^◌, ◌<◌, ◌≤◌, ◌≡◌, ◌⊎◌, ◌↔◌, ◌≢◌, inl, inr, refl, Option, Bool, true, false, ◌&&◌, ◌||◌,
  ◌==◌, ltb, leb, if◌then◌else◌, none, some, List, [], ◌∷◌, get_elem?, get_elem?-none, arith,
}
use secos_ng.Bitfield.{get}
use secos_ng.Trap.Regs.{
  pf_err_p, pf_err_wr, pf_err_us, pf_err_id, sl_err_ext, sl_err_idt, sl_err_ti, sl_err_idx,
}

pub data Name : Type 0 where
  divide_by_zero debug nmi_interrupt breakpoint overflow bound_range_exceeded : Name
  invalid_opcode device_not_available double_fault_name : Name
  coprocessor_segment_overrun invalid_tss segment_not_present stack_fault : Name
  general_protection page_fault_name intel_reserved floating_point_error : Name
  alignment_check machine_check simd_floating_point : Name

-- The strings, by what they name.
unfoldable pub exception_names : List Name
exception_names =
    divide_by_zero ∷ debug ∷ nmi_interrupt ∷ breakpoint ∷ overflow ∷ bound_range_exceeded
    ∷ invalid_opcode ∷ device_not_available ∷ double_fault_name ∷ coprocessor_segment_overrun
    ∷ invalid_tss ∷ segment_not_present ∷ stack_fault ∷ general_protection ∷ page_fault_name
    ∷ intel_reserved ∷ floating_point_error ∷ alignment_check ∷ machine_check ∷ simd_floating_point
    ∷ []

abbrev nr_excp : ℕ
nr_excp = 32

abbrev nmi_excp : ℕ
nmi_excp = 2

abbrev pf_excp : ℕ
pf_excp = 14

abbrev gp_excp : ℕ
gp_excp = 13

-- What the switch prints of the error code.
pub data Details : Type 0 where
  no_details : Details
  page_fault : (p wr us id addr : ℕ) → Details
  protection : (ext idt ti index : ℕ) → Details

-- How a handler ends: it returns, it panics, or it reads past the end of `exception_names`.
pub data Handled : Type 0 where
  ignored_irq : ℕ → Handled
  ignored_nmi : Handled
  fatal : Name → Details → Handled
  out_of_range : Handled

unfoldable pub details : (vector err cr2 : ℕ) → Details
details vector err cr2 =
    if vector == pf_excp
    then page_fault (get pf_err_p err) (get pf_err_wr err) (get pf_err_us err) (get pf_err_id err)
        cr2
    else if vector == gp_excp
    then protection (get sl_err_ext err) (get sl_err_idt err) (get sl_err_ti err)
        (get sl_err_idx err)
    else no_details

excp_hdlr : (vector err cr2 : ℕ) → Handled
excp_hdlr vector err cr2 = elim (get_elem? exception_names vector) [
  | none ↦ out_of_range
  | some name ↦ if vector == nmi_excp then ignored_nmi else fatal name (details vector err cr2)
]

pub intr_hdlr : (nr err cr2 : ℕ) → Handled
intr_hdlr nr err cr2 =
    let vector = nr % 2 ^ 8 in
    if ltb vector nr_excp then excp_hdlr vector err cr2 else ignored_irq vector

abbrev is_contributory_exception : ℕ → Bool
is_contributory_exception e = (e == 13) || (e == 11) || (e == 10) || (e == 0) || (e == 12)

double_fault : ℕ → ℕ → Bool
double_fault e1 e2 =
    (is_contributory_exception e1 && is_contributory_exception e2)
    || ((e1 == pf_excp) && ((e2 == pf_excp) || is_contributory_exception e2))

-- The handler gives control back.
unfoldable pub returns : Handled → Bool
returns (ignored_irq v) = true
returns ignored_nmi = true
returns (fatal n d) = false
returns out_of_range = false

names_end : (v : ℕ) → (get_elem? exception_names v ≡ none) ↔ (20 ≤ v)
unfolding exception_names
names_end v = get_elem?-none exception_names v

-- `intr_hdlr` gives control back exactly for the NMI and for the vectors that are no exceptions;
-- it reads past the end of the exceptions' names exactly for the vectors 20 to 31.
pub intr_hdlr-returns :
    (nr err cr2 : ℕ)
    → ((returns (intr_hdlr nr err cr2) ≡ true) ↔ ((nr % 256 ≡ 2) ⊎ (32 ≤ nr % 256)))
      × ((intr_hdlr nr err cr2 ≡ out_of_range) ↔ ((20 ≤ nr % 256) × (nr % 256 < 32)))
unfolding intr_hdlr excp_hdlr returns
intr_hdlr-returns nr err cr2 = ground (arith, names_end (nr % 256))

pub intr_hdlr_irq : (nr err cr2 : ℕ) → 32 ≤ nr % 256 → intr_hdlr nr err cr2 ≡ ignored_irq (nr % 256)
unfolding intr_hdlr
intr_hdlr_irq nr err cr2 h = ground arith

pub intr_hdlr_nmi : (nr err cr2 : ℕ) → nr % 256 ≡ 2 → intr_hdlr nr err cr2 ≡ ignored_nmi
unfolding intr_hdlr excp_hdlr exception_names
intr_hdlr_nmi nr err cr2 h = ground (arith, h)

named_or_none : (o : Option Name) → (o ≡ none) ⊎ ((name : Name) × (o ≡ some name))
named_or_none none = inl refl
named_or_none (some name) = inr (name, refl)

-- An exception with a name, other than the NMI, is fatal.
-- The name is the one that the vector has in the table.
pub intr_hdlr_named :
    (nr err cr2 : ℕ)
    → nr % 256 < 20
    → nr % 256 ≢ 2
    → (name : Name) × (get_elem? exception_names (nr % 256) ≡ some name)
      × (intr_hdlr nr err cr2 ≡ fatal name (details (nr % 256) err cr2))
unfolding intr_hdlr excp_hdlr
intr_hdlr_named nr err cr2 h n = elim (named_or_none (get_elem? exception_names (nr % 256))) [
  | inl e ↦ absurd (ground (arith, e, names_end (nr % 256)))
  | inr (name, e) ↦ (name, e, ground (arith, e))
]

pub intr_hdlr_fatal :
    (nr err cr2 : ℕ)
    → nr % 256 < 20
    → nr % 256 ≢ 2
    → (name : Name) × (intr_hdlr nr err cr2 ≡ fatal name (details (nr % 256) err cr2))
intr_hdlr_fatal nr err cr2 h n = let found = intr_hdlr_named nr err cr2 h n in (found.0, found.2)

-- The processor's classes of exceptions.
pub data Class : Type 0 where
  benign contributory paging : Class

class_of : ℕ → Class
class_of e =
    if e == 14 then paging else if (e == 0) || (leb 10 e && leb e 13) then contributory else benign

-- A second exception while the first one is delivered: which pairs cannot be served in turn.
escalates : Class → Class → Bool
escalates contributory contributory = true
escalates paging contributory = true
escalates paging paging = true
escalates c d = false

-- The macro agrees with the processor's table of classes at every pair of exceptions.
double_fault-escalates : (e1 e2 : ℕ) → double_fault e1 e2 ≡ escalates (class_of e1) (class_of e2)
unfolding double_fault class_of escalates
double_fault-escalates e1 e2 = ground arith

pub intr_hdlr_gp :
    (err cr2 : ℕ) → intr_hdlr 13 err cr2 ≡ fatal general_protection (details 13 err cr2)
unfolding intr_hdlr excp_hdlr exception_names
intr_hdlr_gp err cr2 = refl
