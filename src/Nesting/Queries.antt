-- ===== src/Nesting/Queries.antt =====
-- The questions that the checks ask of `NestingState`.
use dyod_ws1718_sprint.Common.{Bool, true, false, Option, none, some, List, [], ◌∷◌}
use dyod_ws1718_sprint.Nesting.Blocks.{no_asm, extern_c, class, namespace_, ClassInfo, BlockInfo}

-- `SeenOpenBrace`
unfoldable pub seen_open_brace : List BlockInfo → Bool
seen_open_brace [] = true
seen_open_brace (b ∷ stack) = b.seen_open_brace

-- `InNamespaceBody`
unfoldable pub in_namespace_body : List BlockInfo → Bool
in_namespace_body [] = false
in_namespace_body (b ∷ stack) = elim b.kind [ namespace_ name ↦ true | _ ↦ false ]

-- `InExternC`
unfoldable pub in_extern_c : List BlockInfo → Bool
in_extern_c [] = false
in_extern_c (b ∷ stack) = elim b.kind [ extern_c ↦ true | _ ↦ false ]

-- `InClassDeclaration`
unfoldable pub in_class_declaration : List BlockInfo → Bool
in_class_declaration [] = false
in_class_declaration (b ∷ stack) = elim b.kind [ class c ↦ true | _ ↦ false ]

-- `InAsmBlock`
unfoldable pub in_asm_block : List BlockInfo → Bool
in_asm_block [] = false
in_asm_block (b ∷ stack) = elim b.inline_asm [ no_asm ↦ false | _ ↦ true ]

-- `InnermostClass`
unfoldable pub innermost_class : List BlockInfo → Option ClassInfo
innermost_class [] = none
innermost_class (b ∷ stack) = elim b.kind [ class c ↦ some c | _ ↦ innermost_class stack ]
