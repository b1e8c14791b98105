-- ===== src/Scanner/Inventory/Tables.antt =====
-- The tables through the enumeration of an organisation.
use topology_maps.Prelude.{ℕ, ◌≡◌, refl, ◌∙◌, Bool, true, false, List, [], ◌∷◌, ◌++◌, if◌then◌else◌}
use topology_maps.Text.{Text, codes, elem}
use topology_maps.Catalog.{Network}
use topology_maps.Store.State.{World, Env, Exec, Result, ok, raised, and_then, pure}
use topology_maps.Scanner.Inventory.{
  get_json, enabled_numbers, ssids_url, network_ssids, each_network, each_of, network_of,
  each_device, enumerate_org_composition,
}

-- The state without the count of the requests.
abbrev pub tables : World → World
tables w = record w { requests = 0 }

-- Of two steps that leave the tables as they are, so does the sequence.
pub tables-and_then :
    {A B : Type 0} (before : World) (m : Result A × World) (f : A → Exec B)
    → tables m.1 ≡ before
    → ((a : A) (w : World) → tables (f a w).1 ≡ tables w)
    → tables (and_then m f).1 ≡ before
tables-and_then before (ok a, w) f h k = k a w ∙ h
tables-and_then before (raised e, w) f h k = h

tables-get_json : (env : Env) (url : Text) (w : World) → tables (get_json env url w).1 ≡ tables w
unfolding get_json
tables-get_json env url w = refl

tables-ssids :
    (env : Env) (id : Text) (w : World)
    → tables
        (and_then (get_json env (ssids_url id) w) (λ answer w1. (enabled_numbers answer, w1))).1
      ≡ tables w
tables-ssids env id w =
    tables-and_then (tables w) (get_json env (ssids_url id) w) _
      (tables-get_json env (ssids_url id) w) (λ answer w1. refl)

tables-if :
    (b : Bool) (m : Exec (List ℕ)) (w : World)
    → tables (m w).1 ≡ tables w
    → tables ((if b then m else pure []) w).1 ≡ tables w
tables-if true m w h = h
tables-if false m w h = refl

tables-network_ssids :
    (env : Env) (net : Network) (w : World) → tables (network_ssids env net w).1 ≡ tables w
unfolding network_ssids
tables-network_ssids env net w =
    tables-if (elem (codes "wireless") net.product_types) _ w (tables-ssids env net.id w)

tables-each_network :
    (env : Env) (networks : List Network) (w : World)
    → tables (each_network env networks w).1 ≡ tables w
unfolding each_network
tables-each_network env [] w = refl
tables-each_network env (net ∷ networks) w =
    tables-and_then (tables w) (network_ssids env net w) _ (tables-network_ssids env net w)
      (λ numbers w1.
        tables-and_then (tables w1) (each_network env networks w1) _
          (tables-each_network env networks w1) (λ rest w2. refl))

pub tables-enumerate_org_composition :
    (env : Env) (org_id : Text) (w : World)
    → tables (enumerate_org_composition env org_id w).1 ≡ tables w
unfolding enumerate_org_composition
tables-enumerate_org_composition env org_id w =
    let networks_url = codes "/organizations/" ++ (org_id ++ codes "/networks") in
    let devices_url = codes "/organizations/" ++ (org_id ++ codes "/devices") in
    tables-and_then (tables w) (get_json env networks_url w) _ (tables-get_json env networks_url w)
      (λ networks_answer w1.
        tables-and_then (tables w1) (get_json env devices_url w1) _
          (tables-get_json env devices_url w1)
          (λ devices_answer w2.
            tables-and_then (tables w2) (each_of network_of networks_answer, w2) _ refl
              (λ networks w3.
                tables-and_then (tables w3) (each_device networks devices_answer, w3) _ refl
                  (λ devices w4.
                    tables-and_then (tables w4) (each_network env networks w4) _
                      (tables-each_network env networks w4) (λ ssids w5. refl)))))
