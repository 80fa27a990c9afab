-- ===== src/Service/Messages.antt =====
-- The messages of lib/service.c that change a property are such that libdbus can build them.
use connman_ui.Common.{
  ℕ, ◌≡◌, String, true, false, not, ◌||◌, is_set, Option, none, some, List, [], ◌∷◌, ◌++◌, ◌∙◌, ap,
  sym, Bool-cases, inl, inr, if◌then◌else◌,
}
use mathlib.Core.List.{append-nil, append_assoc}
use connman_ui.Dbus.Libdbus.{text, type_string}
use connman_ui.Dbus.Append.{Call, other_data, append_dict_entry_array}
use connman_ui.Dbus.Read.{entry_array}
use connman_ui.Dbus.Append.Nesting.{
  nesting, IsNested, nil-IsNested, append_value-IsNested, append_dict-IsNested,
  append_array-IsNested, append_dict_entry-IsNested, append_dict_entry_basic-IsNested, Faults,
  null-Faults, after-Faults, before-Faults, append_dict-Faults, append_dict_entry_array-Faults,
}
use connman_ui.Service.State.{Ipv4, Ipv6, Proxy, Answers, property}
use connman_ui.Service.Config.{
  append_ipv4_config, append_ipv6_config, append_proxy_config, append_string_list, append_texts,
  append_setting, reads_null, Setting, ipv4_setting, ipv6_setting, proxy_setting, list_setting,
  basic_setting, parts,
}

append-IsNested :
    (it : ℕ) (cs ds : List Call) → IsNested it cs → IsNested it ds → IsNested it (cs ++ ds)
append-IsNested it cs ds h k = record {
  at = λ rest.
      (ap (λ (es : List Call). nesting es it) (append_assoc cs ds rest)
        ∙ (h.at (ds ++ rest) ∙ k.at rest));
}

ipv4-IsNested : (c : Ipv4) (it : ℕ) → IsNested it (append_ipv4_config c it)
unfolding append_ipv4_config
ipv4-IsNested c it = append-IsNested it _ _ (append_dict_entry_basic-IsNested it _ _ _) (
    append-IsNested it _ _ (append_dict_entry_basic-IsNested it _ _ _) (
      append-IsNested it _ _ (append_dict_entry_basic-IsNested it _ _ _)
        (append_dict_entry_basic-IsNested it _ _ _)))

ipv6-IsNested : (c : Ipv6) (it : ℕ) → IsNested it (append_ipv6_config c it)
unfolding append_ipv6_config
ipv6-IsNested c it = append-IsNested it _ _ (append_dict_entry_basic-IsNested it _ _ _) (
    append-IsNested it _ _ (append_dict_entry_basic-IsNested it _ _ _) (
      append-IsNested it _ _ (append_dict_entry_basic-IsNested it _ _ _) (
        append-IsNested it _ _ (append_dict_entry_basic-IsNested it _ _ _)
          (append_dict_entry_basic-IsNested it _ _ _))))

texts-IsNested : (ss : List String) (it : ℕ) → IsNested it (append_texts ss it)
unfolding append_texts
texts-IsNested [] it = nil-IsNested it
texts-IsNested (s ∷ ss) it =
    append-IsNested it _ _ (append_value-IsNested it none type_string (text s))
      (texts-IsNested ss it)

list-IsNested : (ss : List String) (it : ℕ) → IsNested it (append_string_list (some ss) it)
unfolding append_string_list
list-IsNested ss it = texts-IsNested ss it

null-list-Faults : (it : ℕ) → Faults it (append_string_list none it)
unfolding append_string_list
null-list-Faults it = null-Faults it

entry_array-IsNested :
    (it : ℕ) (key : String) (ss : List String)
    → IsNested it (append_dict_entry_array it key type_string (some (append_string_list (some ss))))
unfolding append_dict_entry_array
entry_array-IsNested it key ss = record {
  at =
      append_dict_entry-IsNested it (some key) entry_array type_string 0
        (some (append_string_list (some ss))) other_data (list-IsNested ss);
}

-- The two entries of an array of append_proxy_config, as either is NULL.
arrays : Answers → Option String → Option String → ℕ → List Call
arrays answers servers excludes it =
    append_dict_entry_array it "Servers" type_string
      (some (append_string_list (parts answers servers)))
    ++ append_dict_entry_array it "Excludes" type_string
        (some (append_string_list (parts answers excludes)))

arrays-IsNested :
    (answers : Answers) (servers excludes : Option String) (it : ℕ)
    → not (is_set servers) || not (is_set excludes) ≡ false
    → IsNested it (arrays answers servers excludes it)
unfolding arrays
arrays-IsNested answers none excludes it h = absurd (cc h)
arrays-IsNested answers (some servers) none it h = absurd (cc h)
arrays-IsNested answers (some servers) (some excludes) it h =
    append-IsNested it _ _ (entry_array-IsNested it "Servers" (answers.split servers))
      (entry_array-IsNested it "Excludes" (answers.split excludes))

arrays-Faults :
    (answers : Answers) (servers excludes : Option String) (it : ℕ)
    → not (is_set servers) || not (is_set excludes) ≡ true
    → Faults it (arrays answers servers excludes it)
unfolding arrays
arrays-Faults answers none excludes it h = before-Faults it _ _ (
    append_dict_entry_array-Faults it "Servers" type_string (append_string_list none)
      null-list-Faults)
arrays-Faults answers (some servers) none it h =
    after-Faults it _ _ (entry_array-IsNested it "Servers" (answers.split servers)) (
      append_dict_entry_array-Faults it "Excludes" type_string (append_string_list none)
        null-list-Faults)
arrays-Faults answers (some servers) (some excludes) it h = absurd (cc h)

proxy-IsNested :
    (answers : Answers) (c : Proxy)
    → reads_null (proxy_setting c) ≡ false
    → (it : ℕ) → IsNested it (append_proxy_config answers c it)
unfolding append_proxy_config arrays reads_null
proxy-IsNested answers c h it = append-IsNested it _ _ (append_dict_entry_basic-IsNested it _ _ _) (
    append-IsNested it _ _ (append_dict_entry_basic-IsNested it _ _ _)
      (arrays-IsNested answers c.servers c.excludes it h))

proxy-Faults :
    (answers : Answers) (c : Proxy) (it : ℕ)
    → reads_null (proxy_setting c) ≡ true
    → Faults it (append_proxy_config answers c it)
unfolding append_proxy_config arrays reads_null
proxy-Faults answers c it h = after-Faults it _ _ (append_dict_entry_basic-IsNested it _ _ _) (
    after-Faults it _ _ (append_dict_entry_basic-IsNested it _ _ _)
      (arrays-Faults answers c.servers c.excludes it h))

-- A setting without NULL in the place of an array.
setting-IsNested :
    (answers : Answers) (index t : ℕ) (value : Setting)
    → reads_null value ≡ false
    → IsNested 0 (append_setting answers index t value)
unfolding append_setting reads_null
setting-IsNested answers index t (ipv4_setting c) h =
    append_dict-IsNested 0 (some (property index)) (some (append_ipv4_config c)) (ipv4-IsNested c)
setting-IsNested answers index t (ipv6_setting c) h =
    append_dict-IsNested 0 (some (property index)) (some (append_ipv6_config c)) (ipv6-IsNested c)
setting-IsNested answers index t (proxy_setting c) h =
    append_dict-IsNested 0 (some (property index)) (some (append_proxy_config answers c))
      (proxy-IsNested answers c h)
setting-IsNested answers index t (list_setting ss) h =
    append_array-IsNested 0 (some (property index)) type_string
      (some (append_string_list (some ss))) (list-IsNested ss)
setting-IsNested answers index t (basic_setting b) h =
    append_value-IsNested 0 (some (property index)) t b

setting-Faults :
    (answers : Answers) (index t : ℕ) (value : Setting)
    → reads_null value ≡ true
    → Faults 0 (append_setting answers index t value)
unfolding append_setting reads_null
setting-Faults answers index t (proxy_setting c) h =
    append_dict-Faults 0 (property index) (append_proxy_config answers c)
      (λ it. proxy-Faults answers c it h)
setting-Faults answers index t (ipv4_setting c) h = absurd (cc h)
setting-Faults answers index t (ipv6_setting c) h = absurd (cc h)
setting-Faults answers index t (list_setting ss) h = absurd (cc h)
setting-Faults answers index t (basic_setting b) h = absurd (cc h)

-- The writes of set_service_property into a SetProperty message, for each kind of setting: each goes to the innermost
-- open container, and the containers are closed in order, but for a proxy whose servers or excludes are NULL, where
-- the code reads through NULL.
pub setting_nested :
    (answers : Answers) (index t : ℕ) (value : Setting)
    → nesting (append_setting answers index t value) 0 ≡ (if reads_null value then none else some 0)
unfolding nesting
setting_nested answers index t value =
    let calls = append_setting answers index t value in
    let padded : nesting calls 0 ≡ nesting (calls ++ []) 0 =
      ap (λ (cs : List Call). nesting cs 0) (sym (append-nil calls)) in
    elim (Bool-cases (reads_null value)) [
      | inl e ↦ rw e (padded ∙ (setting-Faults answers index t value e).at [])
      | inr e ↦ rw e (padded ∙ (setting-IsNested answers index t value e).at [])
    ]
