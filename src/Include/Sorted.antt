-- ===== src/Include/Sorted.antt =====
-- Sequences of includes within one section check: which of them pass. They need not be in the
-- order that the comment in `CheckIncludeLine` lists: a file's own headers pass among other headers,
-- too.
use dyod_ws1718_sprint.Common.{◌≤◌, ◌≡◌, ◌↔◌, arith, List, [], ◌∷◌}
use dyod_ws1718_sprint.Include.{
  HeaderType, c_sys_header, cpp_sys_header, likely_my_header, possible_my_header, other_header,
  IncludeState, check_next_include_order,
}
use dyod_ws1718_sprint.Include.Order.{error_message-ne-nil}

-- No call of the sequence complains.
pub Passes : List HeaderType → IncludeState → Type 0
Passes [] s = Unit
Passes (t ∷ ts) s = let r = check_next_include_order t s in (r.1 ≡ []) × Passes ts r.0

-- The order, read from the back: other headers and the file's own, in any order; before those the C++ system headers, before those the C ones, and the file's own in front.
pub data OthersLast : List HeaderType → Type 0 where
  done : OthersLast []
  other : {ts : List HeaderType} → OthersLast ts → OthersLast (other_header ∷ ts)
  likely : {ts : List HeaderType} → OthersLast ts → OthersLast (likely_my_header ∷ ts)
  possible : {ts : List HeaderType} → OthersLast ts → OthersLast (possible_my_header ∷ ts)

pub data CppFirst : List HeaderType → Type 0 where
  rest : {ts : List HeaderType} → OthersLast ts → CppFirst ts
  cpp : {ts : List HeaderType} → CppFirst ts → CppFirst (cpp_sys_header ∷ ts)

pub data CFirst : List HeaderType → Type 0 where
  rest : {ts : List HeaderType} → CppFirst ts → CFirst ts
  c : {ts : List HeaderType} → CFirst ts → CFirst (c_sys_header ∷ ts)

pub data MyFirst : List HeaderType → Type 0 where
  rest : {ts : List HeaderType} → CFirst ts → MyFirst ts
  likely : {ts : List HeaderType} → MyFirst ts → MyFirst (likely_my_header ∷ ts)
  possible : {ts : List HeaderType} → MyFirst ts → MyFirst (possible_my_header ∷ ts)

Passes→OthersLast :
    (ts : List HeaderType) (s : IncludeState) → s.section ≡ 4 → Passes ts s → OthersLast ts
unfolding Passes check_next_include_order
Passes→OthersLast [] s e p = OthersLast.done
Passes→OthersLast (c_sys_header ∷ ts) s e p =
    absurd (error_message-ne-nil c_sys_header s.section (ground arith))
Passes→OthersLast (cpp_sys_header ∷ ts) s e p =
    absurd (error_message-ne-nil cpp_sys_header s.section (ground arith))
Passes→OthersLast (likely_my_header ∷ ts) s e p =
    (OthersLast.likely (Passes→OthersLast ts _ (ground arith) p.1))
Passes→OthersLast (possible_my_header ∷ ts) s e p =
    (OthersLast.possible (Passes→OthersLast ts _ (ground arith) p.1))
Passes→OthersLast (other_header ∷ ts) s e p =
    (OthersLast.other (Passes→OthersLast ts _ (ground arith) p.1))

Passes→CppFirst :
    (ts : List HeaderType) (s : IncludeState) → s.section ≡ 3 → Passes ts s → CppFirst ts
unfolding Passes check_next_include_order
Passes→CppFirst [] s e p = (CppFirst.rest OthersLast.done)
Passes→CppFirst (c_sys_header ∷ ts) s e p =
    absurd (error_message-ne-nil c_sys_header s.section (ground arith))
Passes→CppFirst (cpp_sys_header ∷ ts) s e p =
    (CppFirst.cpp (Passes→CppFirst ts _ (ground arith) p.1))
Passes→CppFirst (likely_my_header ∷ ts) s e p =
    (CppFirst.rest (OthersLast.likely (Passes→OthersLast ts _ (ground arith) p.1)))
Passes→CppFirst (possible_my_header ∷ ts) s e p =
    (CppFirst.rest (OthersLast.possible (Passes→OthersLast ts _ (ground arith) p.1)))
Passes→CppFirst (other_header ∷ ts) s e p =
    (CppFirst.rest (OthersLast.other (Passes→OthersLast ts _ (ground arith) p.1)))

Passes→CFirst : (ts : List HeaderType) (s : IncludeState) → s.section ≡ 2 → Passes ts s → CFirst ts
unfolding Passes check_next_include_order
Passes→CFirst [] s e p = (CFirst.rest (CppFirst.rest OthersLast.done))
Passes→CFirst (c_sys_header ∷ ts) s e p = (CFirst.c (Passes→CFirst ts _ (ground arith) p.1))
Passes→CFirst (cpp_sys_header ∷ ts) s e p =
    (CFirst.rest (CppFirst.cpp (Passes→CppFirst ts _ (ground arith) p.1)))
Passes→CFirst (likely_my_header ∷ ts) s e p =
    (CFirst.rest (CppFirst.rest (OthersLast.likely (Passes→OthersLast ts _ (ground arith) p.1))))
Passes→CFirst (possible_my_header ∷ ts) s e p =
    (CFirst.rest (CppFirst.rest (OthersLast.possible (Passes→OthersLast ts _ (ground arith) p.1))))
Passes→CFirst (other_header ∷ ts) s e p =
    (CFirst.rest (CppFirst.rest (OthersLast.other (Passes→OthersLast ts _ (ground arith) p.1))))

Passes→MyFirst :
    (ts : List HeaderType) (s : IncludeState) → s.section ≤ 1 → Passes ts s → MyFirst ts
unfolding Passes check_next_include_order
Passes→MyFirst [] s e p = (MyFirst.rest (CFirst.rest (CppFirst.rest OthersLast.done)))
Passes→MyFirst (c_sys_header ∷ ts) s e p =
    (MyFirst.rest (CFirst.c (Passes→CFirst ts _ (ground arith) p.1)))
Passes→MyFirst (cpp_sys_header ∷ ts) s e p =
    (MyFirst.rest (CFirst.rest (CppFirst.cpp (Passes→CppFirst ts _ (ground arith) p.1))))
Passes→MyFirst (likely_my_header ∷ ts) s e p =
    (MyFirst.likely (Passes→MyFirst ts _ (ground arith) p.1))
Passes→MyFirst (possible_my_header ∷ ts) s e p =
    (MyFirst.possible (Passes→MyFirst ts _ (ground arith) p.1))
Passes→MyFirst (other_header ∷ ts) s e p =
    (MyFirst.rest
      (CFirst.rest (CppFirst.rest (OthersLast.other (Passes→OthersLast ts _ (ground arith) p.1)))))

OthersLast→Passes :
    (ts : List HeaderType) (s : IncludeState) → s.section ≤ 4 → OthersLast ts → Passes ts s
unfolding Passes check_next_include_order
OthersLast→Passes _ s e OthersLast.done = tt
OthersLast→Passes (likely_my_header ∷ ts) s e (OthersLast.likely h) =
    (ground arith, OthersLast→Passes ts _ (ground arith) h)
OthersLast→Passes (possible_my_header ∷ ts) s e (OthersLast.possible h) =
    (ground arith, OthersLast→Passes ts _ (ground arith) h)
OthersLast→Passes (other_header ∷ ts) s e (OthersLast.other h) =
    (ground arith, OthersLast→Passes ts _ (ground arith) h)

CppFirst→Passes :
    (ts : List HeaderType) (s : IncludeState) → s.section ≤ 3 → CppFirst ts → Passes ts s
unfolding Passes check_next_include_order
CppFirst→Passes ts s e (CppFirst.rest h) = OthersLast→Passes ts s (omega arith) h
CppFirst→Passes (cpp_sys_header ∷ ts) s e (CppFirst.cpp h) =
    (ground arith, CppFirst→Passes ts _ (ground arith) h)

CFirst→Passes : (ts : List HeaderType) (s : IncludeState) → s.section ≤ 2 → CFirst ts → Passes ts s
unfolding Passes check_next_include_order
CFirst→Passes ts s e (CFirst.rest h) = CppFirst→Passes ts s (omega arith) h
CFirst→Passes (c_sys_header ∷ ts) s e (CFirst.c h) =
    (ground arith, CFirst→Passes ts _ (ground arith) h)

MyFirst→Passes :
    (ts : List HeaderType) (s : IncludeState) → s.section ≤ 1 → MyFirst ts → Passes ts s
unfolding Passes check_next_include_order
MyFirst→Passes ts s e (MyFirst.rest h) = CFirst→Passes ts s (omega arith) h
MyFirst→Passes (likely_my_header ∷ ts) s e (MyFirst.likely h) =
    (ground arith, MyFirst→Passes ts _ (ground arith) h)
MyFirst→Passes (possible_my_header ∷ ts) s e (MyFirst.possible h) =
    (ground arith, MyFirst→Passes ts _ (ground arith) h)

-- Where no section is reached yet, a sequence of includes raises no complaint exactly when it is:
-- the file's own headers, C system headers, C++ system headers, and other headers, among which the
-- file's own may stand again.
pub Passes-iff_MyFirst :
    (ts : List HeaderType) (s : IncludeState) → s.section ≡ 0 → Passes ts s ↔ MyFirst ts
Passes-iff_MyFirst ts s e = (Passes→MyFirst ts s (omega arith), MyFirst→Passes ts s (omega arith))
