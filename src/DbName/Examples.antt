-- ===== src/DbName/Examples.antt =====
-- Tests of the database names, and their theorems at concrete inputs.
use Prim.Native.String.{◌++◌}
use frappe_operator.Common.{◌≤◌, ◌≡◌, refl}
use frappe_operator.DbName.{sanitize_name, hash_string, length, generate_db_name}
use frappe_operator.DbName.Sanitized.{IsSafe, IsClean, sanitize_name-IsClean}
use frappe_operator.DbName.Shape.{generate_db_name_bounds}

sanitize_name_test : sanitize_name "--My.Shop..com!" ≡ "My_Shop_com"
unfolding sanitize_name
sanitize_name_test = refl

hash_string_test : hash_string "a" ≡ "e40c292c"
unfolding hash_string
hash_string_test = refl

generate_db_name_test :
    generate_db_name "web" "shop" "shop.example.com"
    ≡ "_" ++ (hash_string "web/shop" ++ "_shop_example_com")
unfolding generate_db_name hash_string sanitize_name
generate_db_name_test = refl

sanitize_name-IsClean_example : IsClean (sanitize_name "shop.example.com")
sanitize_name-IsClean_example = sanitize_name-IsClean "shop.example.com"

generate_db_name_bounds_example :
    (length (generate_db_name "web" "shop" "shop.example.com") ≤ 64)
    × IsSafe (generate_db_name "web" "shop" "shop.example.com")
generate_db_name_bounds_example = generate_db_name_bounds "web" "shop" "shop.example.com"
