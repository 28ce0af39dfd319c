-- ===== src/Tests/Trees.antt =====
-- The device tree at concrete inputs.
use risc_v_emulator.Prelude.{ℕ, ◌+◌, ◌≤◌, ◌≡◌, inr, refl, arith, List, [], ◌∷◌}
use risc_v_emulator.Dts.{length, Call, token, property_string, property_reg, perform_all}
use risc_v_emulator.Dts.Encoding.{emit, encode_all}
use risc_v_emulator.Dts.Source.{write_tree, create_complete_device_tree}
use risc_v_emulator.Dts.Layout.{perform_all-encode_all}
use risc_v_emulator.Dts.Tree.{write_tree_bounds, create_complete_device_tree_lem}

abbrev zeros : ℕ → ℕ
zeros i = 0

abbrev calls : List Call
calls = token 1 ∷ property_string "status" "okay" ∷ property_reg "reg" (5 ∷ 6 ∷ []) ∷ token 2 ∷ []

perform_all-encode_all_example :
    perform_all 0x100 calls (zeros, 8)
    ≡ (emit (0x100 + 8) (encode_all calls) zeros, 8 + length (encode_all calls))
perform_all-encode_all_example =
    perform_all-encode_all 0x100 calls zeros 8 refl (omega arith) (omega arith)

write_tree_bounds_example :
    ((write_tree 0x2000 zeros).0 0x3000 ≡ 0) × ((write_tree 0x2000 zeros).1 ≤ 2088)
write_tree_bounds_example = write_tree_bounds 0x2000 0x3000 zeros (omega arith) (inr (omega arith))

create_complete_device_tree_lem_example : create_complete_device_tree 0x2200000 zeros ≡ zeros
create_complete_device_tree_lem_example =
    create_complete_device_tree_lem 0x2200000 zeros (omega arith)
