-- ===== src/Kernel/Requests/Address.antt =====
-- The pointer that a program gets of OC_FUNCION_RESERVAR names its block in OC_FUNCION_LIBERAR.
use so_distribuido.Base.{ℕ, zero, ◌+◌, ◌-◌, ◌*◌, ◌/◌, ◌%◌, ◌^◌, ◌<◌, ◌≡◌, refl, ◌∙◌, ap, arith}
use native.Mathlib.Nat.{
  add-mul-div_left, add-mul-mod_self_left, div-eq_of_lt, mod-eq_of_lt, mul-add,
}
use so_distribuido.Kernel.Heap.{header}
use so_distribuido.Kernel.Requests.{
  obtener_direccion_relativa, obtener_direccion_de_bloque_verdadera,
}

-- The pointer that a program gets for a block names the page and the place of the block
-- again when it is released, where the data of the block start in the page and the address
-- is an int.
pub direccion_back :
    (tamanio bloque n paginas_codigo : ℕ)
    → bloque + header < tamanio
    → tamanio * (n + paginas_codigo + 1) < 2 ^ 31
    → n + paginas_codigo < 2 ^ 31
    → obtener_direccion_de_bloque_verdadera tamanio
        (obtener_direccion_relativa tamanio bloque n paginas_codigo)
        paginas_codigo
      ≡ (n, bloque)
unfolding obtener_direccion_relativa obtener_direccion_de_bloque_verdadera
direccion_back tamanio bloque n paginas inside fits few =
    let pos : zero < tamanio = omega (arith, inside) in
    let one : tamanio * (n + paginas + 1) ≡ tamanio * (n + paginas) + tamanio * 1 =
      mul-add tamanio (n + paginas) 1 in
    let sum : tamanio * (n + paginas + 1) ≡ tamanio * (n + paginas) + tamanio =
      omega (arith, one) in
    let dist : tamanio * (n + paginas) ≡ tamanio * n + tamanio * paginas =
      mul-add tamanio n paginas in
    let flat : (bloque + header + tamanio * n + tamanio * paginas) % 2 ^ 32
        ≡ bloque + header + tamanio * (n + paginas) =
      omega (arith, dist, sum, fits, inside) in
    let q : (bloque + header + tamanio * (n + paginas)) / tamanio ≡ n + paginas =
      add-mul-div_left (bloque + header) (n + paginas) pos
      ∙ ap (λ x. x + (n + paginas)) (div-eq_of_lt inside)
      ∙ omega arith in
    let r : (bloque + header + tamanio * (n + paginas)) % tamanio ≡ bloque + header =
      add-mul-mod_self_left (bloque + header) tamanio (n + paginas) ∙ mod-eq_of_lt inside in
    let a : (n + paginas + 2 ^ 32 - paginas) % 2 ^ 32 ≡ n = omega (arith, few) in
    let b : (bloque + header + 2 ^ 32 - header) % 2 ^ 32 ≡ bloque =
      omega (arith, inside, sum, fits) in
    rw (flat, q, r, a, b) refl
