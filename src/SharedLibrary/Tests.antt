-- ===== src/SharedLibrary/Tests.antt =====
-- A PCB with one instruction, one context with a variable, and one label.
mod Messages
use so_distribuido.Base.{◌-◌, ◌^◌, ◌≡◌, refl, [], ◌∷◌, some, arith}
use so_distribuido.SharedLibrary.Stream.{all_none, all_next}
use so_distribuido.SharedLibrary.Serializar.{
  IndiceCodigo, ArgsVars, ElementStack, Etiqueta, Pcb, pcb_serializer, deserializer_pcb,
}
use so_distribuido.SharedLibrary.Serializar.RoundTrip.{PcbFits, deserializer_pcb-pcb_serializer}

abbrev line : IndiceCodigo
line = record { offset = 911; size = 70000 }

abbrev variable : ArgsVars
variable = record { id = b'a'; pagina = 3; offset = 4; size = 4 }

abbrev context : ElementStack
context = record {
  ret_pos = 666;
  ret_var = record { pagina = 1; offset = 2; size = 3 };
  args = [];
  vars = variable ∷ [];
}

abbrev label : Etiqueta
label = record { key = b'f' ∷ b'i' ∷ b'n' ∷ []; value = 27 }

abbrev pcb : Pcb
pcb = record {
  pid = 111;
  pc = 22;
  cantidad_paginas = 33;
  exit_code = 2 ^ 16 - 4;
  sp = 7;
  cantidad_instrucciones = 1;
  indice_stack = context ∷ [];
  indice_codigo = line ∷ [];
  indice_etiquetas = label ∷ [];
}

pcb-PcbFits : PcbFits pcb
pcb-PcbFits = record {
  pid = omega arith;
  pc = omega arith;
  cantidad_paginas = omega arith;
  exit_code = omega arith;
  sp = omega arith;
  instrucciones = refl;
  few_instrucciones = omega arith;
  stack =
      all_next context []
        (record {
          ret_pos = omega arith;
          pagina = omega arith;
          offset = omega arith;
          size = omega arith;
          args = all_none;
          few_args = omega arith;
          vars =
              all_next variable []
                (record {
                  id = omega arith;
                  pagina = omega arith;
                  offset = omega arith;
                  size = omega arith;
                })
                all_none;
          few_vars = omega arith;
        })
        all_none;
  few_elements = omega arith;
  codigo = all_next line [] (record { offset = omega arith; size = omega arith }) all_none;
  etiquetas =
      all_next label []
        (record {
          key =
              all_next _ _ (omega arith)
                (all_next _ _ (omega arith) (all_next _ _ (omega arith) all_none));
          short = omega arith;
          value = omega arith;
        })
        all_none;
  few_etiquetas = omega arith;
}

deserializer_pcb-pcb_serializer_example :
    deserializer_pcb (pcb_serializer pcb (1 ∷ 2 ∷ [])) ≡ some pcb
deserializer_pcb-pcb_serializer_example =
    deserializer_pcb-pcb_serializer pcb (1 ∷ 2 ∷ []) pcb-PcbFits
