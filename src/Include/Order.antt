-- ===== src/Include/Order.antt =====
-- `CheckNextIncludeOrder`: when it complains, and that the section only moves on.
use dyod_ws1718_sprint.Common.{ℕ, ◌≤◌, ◌<◌, ◌≡◌, ◌↔◌, arith, [], ◌≢◌}
use dyod_ws1718_sprint.Text.{Str, lit}
use dyod_ws1718_sprint.Include.{
  HeaderType, c_sys_header, cpp_sys_header, likely_my_header, possible_my_header, other_header,
  IncludeState, check_next_include_order, error_message,
}

-- The headers that may not follow a section: system headers, behind their own section.
abbrev pub IsLate : HeaderType → ℕ → Type 0
IsLate c_sys_header section = 2 < section
IsLate cpp_sys_header section = 3 < section
IsLate _ section = ⊥

pub error_message-ne-nil : (type : HeaderType) (section : ℕ) → error_message type section ≢ []
unfolding error_message lit
error_message-ne-nil type section h = cc

-- One call, on every branch.
pub record Checked (type : HeaderType) (s : IncludeState) (r : IncludeState × Str) : Type 0 where
  pub complains_iff : (r.1 ≢ []) ↔ IsLate type s.section
  pub forward : s.section ≤ r.0.section
  pub in_range : r.0.section ≤ 4
  pub refused : IsLate type s.section → (r.0.section ≡ s.section) × (r.0.last_header ≡ [])
  pub moved : r.0.section ≢ s.section → r.0.last_header ≡ []
  pub same_lists : (r.0.last_list ≡ s.last_list) × (r.0.closed_lists ≡ s.closed_lists)

-- From a section of the class: the message is not empty exactly for a C or C++ system header behind
-- its section, and then the section stays; the section never moves back; the last header is
-- forgotten when the section changes and when the header is refused; the lists are untouched.
pub check_next_include_order-Checked :
    (type : HeaderType) (s : IncludeState)
    → s.section ≤ 4
    → Checked type s (check_next_include_order type s)
unfolding check_next_include_order
check_next_include_order-Checked c_sys_header s h =
    ground (arith, error_message-ne-nil c_sys_header s.section)
check_next_include_order-Checked cpp_sys_header s h =
    ground (arith, error_message-ne-nil cpp_sys_header s.section)
check_next_include_order-Checked likely_my_header s h = ground arith
check_next_include_order-Checked possible_my_header s h = ground arith
check_next_include_order-Checked other_header s h = ground arith
